-- ===== src/ServiceAudit/Sound.antt =====
-- The invariant of the graph while it is built, and the steps that keep it.
pub mod Steps
pub mod Linking
pub mod Whole
use pulse_frix.Prelude.{
  ℕ, ◌≡◌, ◌∙◌, refl, sym, ap, Bool, true, false, not, ◌&&◌, ◌||◌, Option, none, some, List, [], ◌∷◌,
  ◌++◌, Text, All, All-append, text_eq, ◌==◌, arith, Option-cases, Bool-cases, inl, inr,
  if◌then◌else◌, both, same_text_iff,
}
use pulse_frix.Dict
use pulse_frix.Dict.{Dict}
use pulse_frix.Dict.Laws.{get-put}
use pulse_frix.Strings.{to_lower}
use pulse_frix.ServiceAudit.{ServiceNode, ServiceRelation, is_essential, append_unique}
use pulse_frix.ServiceAudit.Graph.{
  ServiceGraph, and_then, each, update_node, put_node, add_peer, relate,
}

-- A node has the identifier `id`.
abbrev pub Has : Dict ServiceNode → Text → Type 0
Has nodes id = (n : ServiceNode) × (Dict.get nodes id ≡ some n)

-- A node stands under its identifier, and is marked if its name is one of the essential ones.
abbrev pub IsMarked : Text → ServiceNode → Type 0
IsMarked id n = (n.id ≡ id) × (is_essential n.name ≡ true → n.essential ≡ true)

abbrev pub AreMarked : Dict ServiceNode → Type 0
AreMarked nodes = (id : Text) (n : ServiceNode) → Dict.get nodes id ≡ some n → IsMarked id n

-- An index leads to nodes.
abbrev pub Leads : Dict ServiceNode → Dict Text → Type 0
Leads nodes index = (k id : Text) → Dict.get index k ≡ some id → Has nodes id

pub record IsSound (g : ServiceGraph) : Type 0 where
  pub marked : AreMarked g.nodes
  pub ordered : All (Has g.nodes) g.order
  pub named : Leads g.nodes g.by_name
  pub bound : Leads g.nodes g.by_port
  pub contained : Leads g.nodes g.by_container

abbrev pub Grows : Dict ServiceNode → Dict ServiceNode → Type 0
Grows m m' = (id : Text) → Has m id → Has m' id

-- A run that ends in no nil pointer keeps the invariant and loses no node.
abbrev pub Succeeds : ServiceGraph → Option ServiceGraph → Type 0
Succeeds g r = (h : ServiceGraph) × (r ≡ some h) × IsSound h × Grows g.nodes h.nodes

pub and_then-Succeeds :
    (g : ServiceGraph) (r : Option ServiceGraph) (f : ServiceGraph → Option ServiceGraph)
    → Succeeds g r
    → ((h : ServiceGraph) → IsSound h → Grows g.nodes h.nodes → Succeeds h (f h))
    → Succeeds g (and_then r f)
unfolding and_then
and_then-Succeeds g r f (h, e, sound, grows) next =
    let (h', e', sound', grows') = next h sound grows in
    (h', rw (e, and_then) e', sound', λ id has. grows' id (grows id has))

pub each-Succeeds :
    {A : Type 0} (f : A → ServiceGraph → Option ServiceGraph) (xs : List A) (g : ServiceGraph)
    → ((x : A) (h : ServiceGraph) → IsSound h → Grows g.nodes h.nodes → Succeeds h (f x h))
    → IsSound g
    → Succeeds g (each f xs g)
unfolding each
each-Succeeds f [] g step sound = (g, refl, sound, λ id has. has)
each-Succeeds f (x ∷ xs) g step sound =
    let (h, e, sound', grows) = step x g sound (λ id has. has) in
    let (h', e', sound'', grows') =
      each-Succeeds f xs h (λ y k s more. step y k s (λ id has. more id (grows id has))) sound' in
    (h', rw (e, each) e', sound'', λ id has. grows' id (grows id has))

Has-put :
    (m : Dict ServiceNode) (id : Text) (n : ServiceNode) (j : Text)
    → Has m j
    → Has (Dict.put m id n) j
Has-put m id n j (n', e) = elim (Bool-cases (id == j)) [
  | inl same ↦ (n, get-put m id n j ∙ rw same refl)
  | inr apart ↦ (n', get-put m id n j ∙ rw apart e)
]

pub Has-put_self : (m : Dict ServiceNode) (id : Text) (n : ServiceNode) → Has (Dict.put m id n) id
Has-put_self m id n = (n, get-put m id n id ∙ rw ((same_text_iff id id).1 refl) refl)

AreMarked-put :
    (m : Dict ServiceNode) (id : Text) (n : ServiceNode)
    → AreMarked m
    → IsMarked id n
    → AreMarked (Dict.put m id n)
AreMarked-put m id n all new j n' e = elim (Bool-cases (id == j)) [
  | inl same ↦
      let here : n ≡ n' = ground (arith, e, get-put m id n j, same) in
      rw⁻¹ ((same_text_iff id j).0 same, here) new
  | inr apart ↦ all j n' (ground (arith, e, get-put m id n j, apart))
]

Leads-Grows :
    (m m' : Dict ServiceNode) (index : Dict Text) → Grows m m' → Leads m index → Leads m' index
Leads-Grows m m' index grows leads k id e = grows id (leads k id e)

pub Leads-put :
    (m : Dict ServiceNode) (index : Dict Text) (k id : Text)
    → Has m id
    → Leads m index
    → Leads m (Dict.put index k id)
Leads-put m index k id has leads j id' e = elim (Bool-cases (k == j)) [
  | inl same ↦ let here : id ≡ id' = ground (arith, e, get-put index k id j, same) in rw⁻¹ here has
  | inr apart ↦ leads j id' (ground (arith, e, get-put index k id j, apart))
]

All-Grows :
    (m m' : Dict ServiceNode) (ids : List Text) → Grows m m' → All (Has m) ids → All (Has m') ids
All-Grows m m' [] grows all = tt
All-Grows m m' (id ∷ ids) grows (has, all) = (grows id has, All-Grows m m' ids grows all)

-- A change of a node that keeps its identifier and name, and its mark.
abbrev pub Respects : (ServiceNode → ServiceNode) → Type 0
Respects f =
    (n : ServiceNode)
    → ((f n).id ≡ n.id) × ((f n).name ≡ n.name) × (n.essential ≡ true → (f n).essential ≡ true)

Respects-IsMarked :
    (f : ServiceNode → ServiceNode) (id : Text) (n : ServiceNode)
    → Respects f
    → IsMarked id n
    → IsMarked id (f n)
Respects-IsMarked f id n respects (same, mark) =
    let (same_id, same_name, kept) = respects n in
    (same_id ∙ same, λ e. kept (mark (ap is_essential (sym same_name) ∙ e)))

abbrev pub with_node : Text → ServiceNode → ServiceGraph → ServiceGraph
with_node id n g = record g { nodes = Dict.put g.nodes id n }

with_node-IsSound :
    (id : Text) (n : ServiceNode) (g : ServiceGraph)
    → IsSound g
    → IsMarked id n
    → IsSound (with_node id n g) × Grows g.nodes (with_node id n g).nodes
with_node-IsSound id n g sound mark =
    let grows : Grows g.nodes (Dict.put g.nodes id n) = Has-put g.nodes id n in
    (
      record {
        marked = AreMarked-put g.nodes id n sound.marked mark;
        ordered = All-Grows g.nodes _ g.order grows sound.ordered;
        named = Leads-Grows g.nodes _ g.by_name grows sound.named;
        bound = Leads-Grows g.nodes _ g.by_port grows sound.bound;
        contained = Leads-Grows g.nodes _ g.by_container grows sound.contained;
      },
      grows,
    )

pub update_node-Succeeds :
    (id : Text) (f : ServiceNode → ServiceNode) (g : ServiceGraph)
    → Has g.nodes id
    → Respects f
    → IsSound g
    → Succeeds g (update_node id f g)
unfolding update_node
update_node-Succeeds id f g (n, e) respects sound =
    let (sound', grows) =
      with_node-IsSound id (f n) g sound
        (Respects-IsMarked f id n respects (sound.marked id n e)) in
    (with_node id (f n) g, rw (e, update_node) refl, sound', grows)

-- What `put` adds to the map.
abbrev marked_node : ServiceNode → ServiceNode
marked_node n = record n { essential = n.essential || is_essential n.name }

pub put_node-IsSound :
    (n : ServiceNode) (g : ServiceGraph)
    → IsSound g
    → IsSound (put_node n g) × Grows g.nodes (put_node n g).nodes × Has (put_node n g).nodes n.id
unfolding put_node
put_node-IsSound n g sound = elim (Option-cases (Dict.get g.nodes n.id)) [
  | inr (n', e) ↦ rw (e, put_node) (sound, λ id has. has, (n', e))
  | inl e ↦
      let m = Dict.put g.nodes n.id (marked_node n) in
      let (sound', grows) =
        with_node-IsSound n.id (marked_node n) g sound (refl, λ mark. ground (arith, mark)) in
      let here : Has m n.id = Has-put_self g.nodes n.id (marked_node n) in
      rw (e, put_node)
        (
          record {
            marked = sound'.marked;
            ordered = All-append (Has m) g.order (n.id ∷ []) sound'.ordered (here, tt);
            named = Leads-put m g.by_name (to_lower n.name) n.id here sound'.named;
            bound = sound'.bound;
            contained = sound'.contained;
          },
          grows,
          here,
        )
]

add_peer-IsSound :
    (id peer : Text) (g : ServiceGraph)
    → IsSound g
    → IsSound (add_peer id peer g) × Grows g.nodes (add_peer id peer g).nodes
unfolding add_peer
add_peer-IsSound id peer g sound = elim (Option-cases (Dict.get g.nodes id)) [
  | inl e ↦ rw (e, add_peer) (sound, λ j has. has)
  | inr (n, e) ↦
      let (same, mark) = sound.marked id n e in
      rw (e, add_peer)
        (with_node-IsSound id (record n { peers = append_unique n.peers peer }) g sound
          (same, mark))
]

-- The invariant does not read the relations, the flags and the count.
pub rest-IsSound :
    (g : ServiceGraph) (rs : List ServiceRelation) (proxy storage : Bool) (count : ℕ)
    → IsSound g
    → IsSound (record g {
      relations = rs;
      saw_proxy = proxy;
      saw_storage = storage;
      unattributed_ports = count;
    })
rest-IsSound g rs proxy storage count sound = record {
  marked = sound.marked;
  ordered = sound.ordered;
  named = sound.named;
  bound = sound.bound;
  contained = sound.contained;
}

pub relate-IsSound :
    (from to kind detail : Text) (g : ServiceGraph)
    → IsSound g
    → IsSound (relate from to kind detail g) × Grows g.nodes (relate from to kind detail g).nodes
unfolding relate
relate-IsSound from to kind detail g sound =
    let r : ServiceRelation = record { from = from; to = to; kind = kind; detail = detail } in
    let g1 = record g { relations = g.relations ++ r ∷ [] } in
    let (sound1, grows1) = add_peer-IsSound from to g1 (
      rest-IsSound g (g.relations ++ r ∷ []) g.saw_proxy g.saw_storage g.unattributed_ports
        sound) in
    let (sound2, grows2) = add_peer-IsSound to from (add_peer from to g1) sound1 in
    both (λ (h : ServiceGraph). IsSound h × Grows g.nodes h.nodes)
      (from == [] || to == [] || from == to) (λ _. (sound, λ id has. has))
      (λ _. (sound2, λ id has. grows2 id (grows1 id has)))

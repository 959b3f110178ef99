-- ===== src/ServiceAudit/Ranking.antt =====
-- The order of the findings.
use pulse_frix.Prelude.{
  ℕ, ◌≡◌, ◌≢◌, ◌≤◌, ◌<◌, ◌⊎◌, true, false, some, Text, bytes, ◌==◌, ltb, same_text_iff, List, [],
  ◌∷◌, text_eq, nat_eq, arith, Bool-cases, inl, inr, All,
}
use pulse_frix.Prelude.Int.{ℤ, ltb_ℤ}
use pulse_frix.Store.Sorting.{insert, sort_slice}
use pulse_frix.ServiceAudit.{Floats, AgentResource, add64, same_int}
use pulse_frix.ServiceAudit.Rules.{AuditFinding}
use pulse_frix.ServiceAudit.Report.{
  severity_rank, weight, finding_less, found, build_service_audit, ServiceAuditResponse, respond,
}
use pulse_frix.ServiceAudit.Exempt.{All-insert}
use pulse_frix.ServiceAudit.Sound.Whole.{
  nodes_in-some, new_service_graph-Succeeds, build_service_audit_is, response_of,
}

-- Medium above low, and low above everything else.
abbrev pub IsAbove : Text → Text → Type 0
IsAbove s t =
    ((s ≡ bytes "medium") × (t ≢ bytes "medium"))
    ⊎ ((s ≡ bytes "low") × (t ≢ bytes "medium") × (t ≢ bytes "low"))

-- The disk and the memory together, as a signed 64-bit integer.
abbrev pub reclaimed : AuditFinding → ℤ
reclaimed f = add64 f.reclaimable.disk_bytes f.reclaimable.memory_bytes

abbrev rank : AuditFinding → ℕ
rank f = severity_rank f.severity

-- `f` is more severe than `h`, or as severe and no less is to be reclaimed.
abbrev Leads : AuditFinding → AuditFinding → Type 0
Leads f h = (rank h ≤ rank f) × (rank h ≡ rank f → ltb_ℤ (weight f) (weight h) ≡ false)

-- Each finding precedes those after it.
IsOrdered : List AuditFinding → Type 0
IsOrdered [] = Unit
IsOrdered (f ∷ fs) = All (Leads f) fs × IsOrdered fs

Leads-trans : (f h k : AuditFinding) → Leads f h → Leads h k → Leads f k
Leads-trans f h k (le, tie) (le', tie') = (
  omega (arith, le, le'),
  λ e.
      let one : rank h ≡ rank f = omega (arith, le, le', e) in
      let two : rank k ≡ rank h = omega (arith, le, le', e) in
      let a = tie one in let b = tie' two in ground (arith, a, b),
)

less-Leads : (f h : AuditFinding) → finding_less f h ≡ true → Leads f h
unfolding finding_less same_int
less-Leads f h e = (ground (arith, e), λ same. ground (arith, e, same))

not_less-Leads : (f h : AuditFinding) → finding_less h f ≡ false → Leads f h
unfolding finding_less same_int
not_less-Leads f h e = (ground (arith, e), λ same. ground (arith, e, same))

All-Leads :
    (f h : AuditFinding) (ks : List AuditFinding) → Leads f h → All (Leads h) ks → All (Leads f) ks
All-Leads f h [] p all = tt
All-Leads f h (k ∷ ks) p (q, all) = (Leads-trans f h k p q, All-Leads f h ks p all)

insert-IsOrdered :
    (f : AuditFinding) (fs : List AuditFinding)
    → IsOrdered fs
    → IsOrdered (insert finding_less f fs)
unfolding insert IsOrdered
insert-IsOrdered f [] r = (tt, tt)
insert-IsOrdered f (h ∷ fs) (all, r) = elim (Bool-cases (finding_less h f)) [
  | inl e ↦
      rw (insert, e) (All-insert (Leads h) f fs (less-Leads h f e) all, insert-IsOrdered f fs r)
  | inr e ↦ let p = not_less-Leads f h e in rw (insert, e) ((p, All-Leads f h fs p all), (all, r))
]

sort_slice-IsOrdered : (fs : List AuditFinding) → IsOrdered (sort_slice finding_less fs)
unfolding sort_slice IsOrdered
sort_slice-IsOrdered [] = tt
sort_slice-IsOrdered (f ∷ fs) = insert-IsOrdered f _ (sort_slice-IsOrdered fs)

-- `f` is not below `h`, and where neither is above the other no less is reclaimed with it.
abbrev pub Precedes : AuditFinding → AuditFinding → Type 0
Precedes f h =
    (¬ IsAbove h.severity f.severity)
    × (¬ IsAbove f.severity h.severity → ltb_ℤ (reclaimed f) (reclaimed h) ≡ false)

-- Each finding precedes those after it.
pub IsRanked : List AuditFinding → Type 0
IsRanked [] = Unit
IsRanked (f ∷ fs) = All (Precedes f) fs × IsRanked fs

IsAbove-rank : (s t : Text) → IsAbove s t → severity_rank t < severity_rank s
unfolding severity_rank
IsAbove-rank s t (inl (a, b)) =
    ground (arith, a, b, same_text_iff s (bytes "medium"), same_text_iff t (bytes "medium"))
IsAbove-rank s t (inr (a, b, c)) = ground (
  arith,
  a,
  b,
  c,
  same_text_iff s (bytes "medium"),
  same_text_iff t (bytes "medium"),
  same_text_iff s (bytes "low"),
  same_text_iff t (bytes "low"),
)

rank-IsAbove : (s t : Text) → severity_rank t < severity_rank s → IsAbove s t
unfolding severity_rank
rank-IsAbove s t below = elim (Bool-cases (s == bytes "medium")) [
  | inl a ↦ inl (
    (same_text_iff s (bytes "medium")).0 a,
    λ e. ground (arith, a, below, e, same_text_iff t (bytes "medium")),
  )
  | inr a ↦ elim (Bool-cases (s == bytes "low")) [
    | inl b ↦ inr (
      (same_text_iff s (bytes "low")).0 b,
      λ e. ground (arith, a, b, below, e, same_text_iff t (bytes "medium")),
      λ e.
          ground (
            arith,
            a,
            b,
            below,
            e,
            same_text_iff t (bytes "low"),
            same_text_iff t (bytes "medium"),
          ),
    )
    | inr b ↦ absurd (ground (arith, a, b, below))
  ]
]

Leads-Precedes : (f h : AuditFinding) → Leads f h → Precedes f h
unfolding weight
Leads-Precedes f h (le, tie) = (
  λ above. let lt = IsAbove-rank h.severity f.severity above in omega (arith, le, lt),
  λ level. elim (Bool-cases (ltb (rank h) (rank f))) [
    | inl lt ↦ absurd (level (rank-IsAbove f.severity h.severity (ground (arith, lt))))
    | inr same ↦ tie (ground (arith, le, same))
  ],
)

All-Precedes : (f : AuditFinding) (fs : List AuditFinding) → All (Leads f) fs → All (Precedes f) fs
All-Precedes f [] all = tt
All-Precedes f (h ∷ fs) (first, all) = (Leads-Precedes f h first, All-Precedes f fs all)

IsOrdered-IsRanked : (fs : List AuditFinding) → IsOrdered fs → IsRanked fs
unfolding IsOrdered IsRanked
IsOrdered-IsRanked [] r = tt
IsOrdered-IsRanked (f ∷ fs) (all, r) = (All-Precedes f fs all, IsOrdered-IsRanked fs r)

-- The findings of an audit come with those of medium severity first, then those of low severity, then
-- the others, and among findings of one of these three kinds with those first where the most bytes of
-- disk and memory together are to be reclaimed.
pub build_service_audit-IsRanked :
    (fl : Floats) (rs : List AgentResource)
    → (r : ServiceAuditResponse) × (build_service_audit fl rs ≡ some r) × IsRanked r.findings
unfolding respond
build_service_audit-IsRanked fl rs =
    let (g, e, sound, _) = new_service_graph-Succeeds fl rs in
    let (ns, e', _, _) = nodes_in-some g g.order sound sound.ordered in
    (
      response_of fl rs g ns,
      build_service_audit_is fl rs g ns e e',
      IsOrdered-IsRanked _ (sort_slice-IsOrdered (found fl g.saw_proxy ns rs)),
    )

-- ===== src/Strings.antt =====
-- The functions of Go's package strings that the program calls, over ASCII texts: on other bytes
-- Go's versions also fold Unicode letters and spaces, which are left alone here.
use pulse_frix.Prelude.{
  ℕ, ◌+◌, ◌≡◌, refl, Bool, ◌&&◌, ◌||◌, List, [], ◌∷◌, map, reverse, arith, Text, bytes, text_eq,
  nat_eq, ◌==◌, leb, if◌then◌else◌,
}

unfoldable pub lower_byte : ℕ → ℕ
lower_byte c = if leb b'A' c && leb c b'Z' then c + 32 else c

-- `strings.ToLower`
unfoldable pub to_lower : Text → Text
unfolding lower_byte
to_lower s = map lower_byte s

-- `unicode.IsSpace` on a byte: tab, newline, vertical tab, form feed, return and space.
unfoldable pub is_space : ℕ → Bool
is_space c = (leb 9 c && leb c 13) || c == 32

trim_left : Text → Text
trim_left [] = []
trim_left (c ∷ s) = let rest = trim_left s in if is_space c then rest else c ∷ s

-- `strings.TrimSpace`
unfoldable pub trim_space : Text → Text
unfolding trim_left is_space
trim_space s = reverse (trim_left (reverse (trim_left s)))

push_field : Text → List Text → List Text
push_field [] fs = fs
push_field (c ∷ w) fs = (c ∷ w) ∷ fs

-- The field that the text begins with (empty at a space), and the fields after it.
split_fields : Text → Text × List Text
unfolding push_field
split_fields [] = ([], [])
split_fields (c ∷ s) =
    let (w, fs) = split_fields s in if is_space c then ([], push_field w fs) else (c ∷ w, fs)

-- `strings.Fields`: the maximal runs of bytes that are no spaces.
unfoldable pub fields : Text → List Text
unfolding split_fields push_field is_space
fields s = let (w, fs) = split_fields s in push_field w fs

lower_byte_idem : (c : ℕ) → lower_byte (lower_byte c) ≡ lower_byte c
unfolding lower_byte
lower_byte_idem c = ground arith

pub to_lower_idem : (s : Text) → to_lower (to_lower s) ≡ to_lower s
unfolding to_lower
to_lower_idem [] = refl
to_lower_idem (c ∷ s) = cc (lower_byte_idem c, to_lower_idem s)

pub to_lower-eq-nil : (s : Text) → to_lower s ≡ [] → s ≡ []
unfolding to_lower
to_lower-eq-nil [] h = refl
to_lower-eq-nil (c ∷ s) h = cc

fields_run : fields (bytes "  cpu > 80 ") ≡ bytes "cpu" ∷ bytes ">" ∷ bytes "80" ∷ []
unfolding fields
fields_run = refl

trim_space_run : trim_space (bytes "  a b ") ≡ bytes "a b"
unfolding trim_space
trim_space_run = refl

-- ===== src/Csv/Trimming.antt =====
-- What a field of a line becomes: `trim` and `normalise_field` against a description of the result.
use gabbro.Prelude.{
  All, Bool, Bool-cases, [], ap, arith, codes, false, if◌then◌else◌, inl, inr, map, refl, sym, true,
  ℕ, ◌++◌, ◌∷◌, ◌≡◌, ◌≤◌, ◌-◌, ◌⊎◌, ◌∙◌, ◌&&◌,
}
use gabbro.Bytes.{bytes_eq}
use gabbro.Bytes.Equal.{bytes_eq_refl, eq_of_bytes_eq}
use gabbro.Entry.Card.{is_blank, is_whitespace}
use gabbro.Csv.{Text, field_of, trim_start, trim_end, normalise_field, ascii_lower}

abbrev pub starts_white : Text → Bool
starts_white [] = false
starts_white (c ∷ cs) = is_whitespace c

abbrev pub ends_white : Text → Bool
ends_white [] = false
ends_white (c ∷ []) = is_whitespace c
ends_white (c ∷ (d ∷ cs)) = ends_white (d ∷ cs)

abbrev pub IsWhite : Text → Type 0
IsWhite = All (λ c. is_whitespace c ≡ true)

-- The word "none", in any case.
pub data IsNoneWord : Text → Type 0 where
  none_word :
      (a b c d : ℕ)
      → (a ≡ b'n') ⊎ (a ≡ b'N')
      → (b ≡ b'o') ⊎ (b ≡ b'O')
      → (c ≡ b'n') ⊎ (c ≡ b'N')
      → (d ≡ b'e') ⊎ (d ≡ b'E')
      → IsNoneWord (a ∷ b ∷ c ∷ d ∷ [])

-- What is to be read of a field's text: the text between the white space at its ends, but nothing if
-- that is the word "none".
pub record IsFieldOf (raw field : Text) : Type 0 where
  pub before : Text
  pub core : Text
  pub behind : Text
  pub whole : raw ≡ before ++ (core ++ behind)
  pub white_before : IsWhite before
  pub white_behind : IsWhite behind
  pub no_start : starts_white core ≡ false
  pub no_end : ends_white core ≡ false
  pub value : ((field ≡ []) × IsNoneWord core) ⊎ ((field ≡ core) × ¬ IsNoneWord core)

trim_start_lem :
    (xs : Text)
    → (before : Text) × (xs ≡ before ++ trim_start xs)
      × IsWhite before
      × (starts_white (trim_start xs) ≡ false)
unfolding trim_start
trim_start_lem [] = ([], refl, tt, refl)
trim_start_lem (c ∷ cs) = elim (Bool-cases (is_whitespace c)) [
  | inl white ↦
      let (before, whole, blank, starts) = trim_start_lem cs in
      rw white (c ∷ before, ap (◌∷◌ c) whole, (white, blank), starts)
  | inr plain ↦ rw plain ([], refl, tt, plain)
]

is_blank-cons : (c : ℕ) (cs : Text) → is_blank (c ∷ cs) ≡ (is_whitespace c && is_blank cs)
unfolding is_blank
is_blank-cons c cs = refl

both_true : (a b : Bool) → (a && b) ≡ true → (a ≡ true) × (b ≡ true)
both_true true b h = (refl, h)
both_true false b h = cc

first_false : (a b : Bool) → (a && b) ≡ false → b ≡ true → a ≡ false
first_false true b h t = cc
first_false false b h t = refl

IsWhite-of_blank : (xs : Text) → is_blank xs ≡ true → IsWhite xs
IsWhite-of_blank [] h = tt
IsWhite-of_blank (c ∷ cs) h =
    let (white, rest) = both_true (is_whitespace c) (is_blank cs) (sym (is_blank-cons c cs) ∙ h) in
    (white, IsWhite-of_blank cs rest)

trim_end-cons :
    (c : ℕ) (cs : Text) → trim_end (c ∷ cs) ≡ (if is_blank (c ∷ cs) then [] else c ∷ trim_end cs)
unfolding trim_end
trim_end-cons c cs = refl

blank_of_trimmed : (xs : Text) → trim_end xs ≡ [] → is_blank xs ≡ true
blank_of_trimmed [] h = unfold is_blank in refl
blank_of_trimmed (c ∷ cs) h = elim (Bool-cases (is_blank (c ∷ cs))) [
  | inl blank ↦ blank
  | inr plain ↦ absurd (cc (rw (trim_end-cons c cs, plain) at h))
]

ends_white-cons :
    (c : ℕ) (cs : Text)
    → (cs ≡ [] → is_whitespace c ≡ false)
    → ends_white cs ≡ false
    → ends_white (c ∷ cs) ≡ false
ends_white-cons c [] alone h = alone refl
ends_white-cons c (d ∷ cs) alone h = h

trim_end_lem :
    (xs : Text)
    → (behind : Text) × (xs ≡ trim_end xs ++ behind)
      × IsWhite behind
      × (ends_white (trim_end xs) ≡ false)
trim_end_lem [] = unfold trim_end in ([], refl, tt, refl)
trim_end_lem (c ∷ cs) = elim (Bool-cases (is_blank (c ∷ cs))) [
  | inl blank ↦ rw (trim_end-cons c cs, blank) (c ∷ cs, refl, IsWhite-of_blank (c ∷ cs) blank, refl)
  | inr plain ↦
      let (behind, whole, white, ends) = trim_end_lem cs in
      rw (trim_end-cons c cs, plain)
        (
          behind,
          ap (◌∷◌ c) whole,
          white,
          ends_white-cons c (trim_end cs)
              (λ alone.
                first_false (is_whitespace c) (is_blank cs) (sym (is_blank-cons c cs) ∙ plain)
                  (blank_of_trimmed cs alone))
              ends,
        )
]

-- What is cut off at the end leaves the start.
starts_white-trim_end : (xs : Text) → starts_white xs ≡ false → starts_white (trim_end xs) ≡ false
starts_white-trim_end [] h = unfold trim_end in refl
starts_white-trim_end (c ∷ cs) h = elim (Bool-cases (is_blank (c ∷ cs))) [
  | inl blank ↦ rw (trim_end-cons c cs, blank) refl
  | inr plain ↦ rw (trim_end-cons c cs, plain) h
]

lower_cases : (c k : ℕ) → 97 ≤ k → k ≤ 122 → ascii_lower c ≡ k → (c ≡ k) ⊎ (c ≡ k - 32)
lower_cases c k lo hi h = ground arith

lower_of_case : (c k : ℕ) → 97 ≤ k → k ≤ 122 → (c ≡ k) ⊎ (c ≡ k - 32) → ascii_lower c ≡ k
lower_of_case c k lo hi h = ground arith

IsNoneWord-of_lower : (xs : Text) → map ascii_lower xs ≡ codes "none" → IsNoneWord xs
IsNoneWord-of_lower [] h = cc
IsNoneWord-of_lower (a ∷ []) h = cc
IsNoneWord-of_lower (a ∷ (b ∷ [])) h = cc
IsNoneWord-of_lower (a ∷ (b ∷ (c ∷ []))) h = cc
IsNoneWord-of_lower (a ∷ (b ∷ (c ∷ (d ∷ (e ∷ es))))) h = cc
IsNoneWord-of_lower (a ∷ (b ∷ (c ∷ (d ∷ [])))) h =
    none_word a b c d (lower_cases a 110 (omega arith) (omega arith) (cc))
      (lower_cases b 111 (omega arith) (omega arith) (cc))
      (lower_cases c 110 (omega arith) (omega arith) (cc))
      (lower_cases d 101 (omega arith) (omega arith) (cc))

lower-IsNoneWord : (xs : Text) → IsNoneWord xs → map ascii_lower xs ≡ codes "none"
lower-IsNoneWord _ (none_word a b c d ha hb hc hd) = cc (
  lower_of_case a 110 (omega arith) (omega arith) ha,
  lower_of_case b 111 (omega arith) (omega arith) hb,
  lower_of_case c 110 (omega arith) (omega arith) hc,
  lower_of_case d 101 (omega arith) (omega arith) hd,
)

normalise_field_lem :
    (core : Text)
    → ((normalise_field core ≡ []) × IsNoneWord core)
      ⊎ ((normalise_field core ≡ core) × ¬ IsNoneWord core)
unfolding normalise_field
normalise_field_lem core = elim (Bool-cases (bytes_eq (map ascii_lower core) (codes "none"))) [
  | inl same ↦ inl (rw same refl, IsNoneWord-of_lower core (eq_of_bytes_eq _ (codes "none") same))
  | inr differs ↦ inr (
    rw differs refl,
    λ word. cc (rw (lower-IsNoneWord core word, bytes_eq_refl (codes "none")) at differs),
  )
]

-- A field is trimmed, and "none" becomes empty.
pub field_of-IsFieldOf : (raw : Text) → IsFieldOf raw (field_of raw)
unfolding field_of
field_of-IsFieldOf raw =
    let (before, whole, white_before, starts) = trim_start_lem raw in
    let (behind, rest, white_behind, ends) = trim_end_lem (trim_start raw) in
    record {
      before = before;
      core = trim_end (trim_start raw);
      behind = behind;
      whole = whole ∙ ap (λ t. before ++ t) rest;
      white_before = white_before;
      white_behind = white_behind;
      no_start = starts_white-trim_end (trim_start raw) starts;
      no_end = ends;
      value = normalise_field_lem (trim_end (trim_start raw));
    }

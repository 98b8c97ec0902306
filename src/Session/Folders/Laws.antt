-- ===== src/Session/Folders/Laws.antt =====
-- How the folder list reads after each change of it.
use gabbro.Prelude.{
  List, String, [], arith, eq_iff, false, if_elim, if◌then◌else◌, refl, str_eq, true, ◌++◌, ◌∷◌,
  ◌≡◌,
}
use gabbro.Session.Folders.{rename_first, without}
use gabbro.Session.{contains}

-- No name stands twice.
abbrev pub IsDistinct : List String → Type 0
IsDistinct [] = Unit
IsDistinct (f ∷ fs) = (contains f fs ≡ false) × IsDistinct fs

pub contains-append :
    (x y : String) (fs : List String)
    → contains x (fs ++ y ∷ []) ≡ (if str_eq y x then true else contains x fs)
unfolding contains
contains-append x y [] = refl
contains-append x y (f ∷ fs) = ground (arith, contains-append x y fs)

pub contains-without :
    (x name : String) (fs : List String)
    → contains x (without name fs) ≡ (if str_eq name x then false else contains x fs)
unfolding contains without
contains-without x name [] = ground arith
contains-without x name (f ∷ fs) =
    ground (arith, eq_iff f name, eq_iff name x, eq_iff f x, contains-without x name fs)

pub contains-rename_first :
    (x old new : String) (fs : List String)
    → contains old fs ≡ true
    → IsDistinct fs
    → contains x (rename_first old new fs)
      ≡ (if str_eq new x then true else if str_eq old x then false else contains x fs)
unfolding contains rename_first
contains-rename_first x old new [] h d = cc
contains-rename_first x old new (f ∷ fs) h d = ground (
  arith,
  eq_iff f old,
  eq_iff f x,
  eq_iff old x,
  eq_iff new x,
  contains-rename_first x old new fs,
)

pub append-IsDistinct :
    (y : String) (fs : List String)
    → contains y fs ≡ false
    → IsDistinct fs
    → IsDistinct (fs ++ y ∷ [])
unfolding contains
append-IsDistinct y [] h d = (refl, tt)
append-IsDistinct y (f ∷ fs) h d = (
  ground (arith, contains-append f y fs, eq_iff y f, eq_iff f y),
  append-IsDistinct y fs (ground arith) d.1,
)

pub without-IsDistinct :
    (name : String) (fs : List String) → IsDistinct fs → IsDistinct (without name fs)
unfolding without
without-IsDistinct name [] d = tt
without-IsDistinct name (f ∷ fs) d =
    if_elim IsDistinct (str_eq f name) (λ gone. without-IsDistinct name fs d.1)
      (λ stays. (ground (arith, contains-without f name fs), without-IsDistinct name fs d.1))

contains-rename_none :
    (x old new : String) (fs : List String)
    → contains x fs ≡ false
    → str_eq new x ≡ false
    → contains x (rename_first old new fs) ≡ false
unfolding contains rename_first
contains-rename_none x old new [] h e = refl
contains-rename_none x old new (f ∷ fs) h e = ground (arith, contains-rename_none x old new fs)

pub rename_first-IsDistinct :
    (old new : String) (fs : List String)
    → contains new fs ≡ false
    → IsDistinct fs
    → IsDistinct (rename_first old new fs)
unfolding contains rename_first
rename_first-IsDistinct old new [] h d = tt
rename_first-IsDistinct old new (f ∷ fs) h d =
    if_elim IsDistinct (str_eq f old) (λ hit. (ground arith, d.1))
      (λ miss. (
        contains-rename_none f old new fs d.0 (ground (arith, eq_iff new f, eq_iff f new)),
        rename_first-IsDistinct old new fs (ground arith) d.1,
      ))

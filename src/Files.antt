-- ===== src/Files.antt =====
-- The file system as vault/io.rs sees it: what a name stands for, and the calls of `std::fs` with
-- each outcome that they can have. A program that calls it is a `Task`, a tree over the replies, so
-- that every run, every failed call and every point where the machine stops can be spoken of.
pub mod Rules
pub mod Runs
use gabbro.Prelude.{
  Bool, List, Option, Result, err, false, if◌then◌else◌, none, ok, panic, some, true, ◌≡◌, ◌⊎◌, [],
}
use gabbro.Bytes.{Bytes, bytes_eq}

-- A path by its bytes.
abbrev pub FileName : Type 0
FileName = Bytes

-- What a name stands for. The content of an unsynced file is not on the disk yet, so a crash leaves
-- any content; a symlink is kept with what a read through it gives.
pub data Node : Type 0 where
  file unsynced : Bytes → Node
  symlink : Option Bytes → Node
  folder : Node

abbrev pub Disk : Type 0
Disk = FileName → Option Node

abbrev pub put : FileName → Option Node → Disk → Disk
put p n d q = if bytes_eq p q then n else d q

pub data Call : Type 0 where
  symlink_metadata open_truncated sync_all read_file remove_file : FileName → Call
  write_all : FileName → Bytes → Call
  rename : FileName → FileName → Call

pub data FileType : Type 0 where
  is_file is_symlink is_dir : FileType

pub data Removal : Type 0 where
  removed not_found not_removed : Removal

-- The reply of a call: `none` and `false` stand for an error, whose text is not modelled.
abbrev pub Reply : Call → Type 0
Reply (symlink_metadata p) = Option FileType
Reply (open_truncated p) = Bool
Reply (sync_all p) = Bool
Reply (read_file p) = Option Bytes
Reply (remove_file p) = Removal
Reply (write_all p bytes) = Bool
Reply (rename p q) = Bool

abbrev pub type_of : Option Node → Option FileType
type_of none = none
type_of (some (file b)) = some is_file
type_of (some (unsynced b)) = some is_file
type_of (some (symlink b)) = some is_symlink
type_of (some folder) = some is_dir

-- What a read gives.
abbrev pub content_of : Option Node → Option Bytes
content_of none = none
content_of (some (file b)) = some b
content_of (some (unsynced b)) = some b
content_of (some (symlink b)) = b
content_of (some folder) = none

-- `O_NOFOLLOW` refuses a symlink, and a folder is not opened for writing.
abbrev pub is_openable : Option Node → Bool
is_openable none = true
is_openable (some (file b)) = true
is_openable (some (unsynced b)) = true
is_openable (some (symlink b)) = false
is_openable (some folder) = false

abbrev pub synced : Option Node → Option Node
synced none = none
synced (some (file b)) = some (file b)
synced (some (unsynced b)) = some (file b)
synced (some (symlink b)) = some (symlink b)
synced (some folder) = some folder

-- A call that fails leaves the disk as it is, but for a write, which may have got as far as any
-- content. A rename moves the name at once.
abbrev pub Answers : (c : Call) → Disk → Reply c → Disk → Type 0
Answers (symlink_metadata p) d r d' = (d' ≡ d) × ((r ≡ none) ⊎ (r ≡ type_of (d p)))
Answers (read_file p) d r d' = (d' ≡ d) × ((r ≡ none) ⊎ (r ≡ content_of (d p)))
Answers (open_truncated p) d r d' =
    ((r ≡ false) × (d' ≡ d))
    ⊎ ((is_openable (d p) ≡ true) × (r ≡ true) × (d' ≡ put p (some (unsynced [])) d))
Answers (write_all p bytes) d r d' =
    (x : Bytes) × (d' ≡ put p (some (unsynced x)) d) × ((r ≡ false) ⊎ ((r ≡ true) × (x ≡ bytes)))
Answers (sync_all p) d r d' =
    ((r ≡ false) × (d' ≡ d)) ⊎ ((r ≡ true) × (d' ≡ put p (synced (d p)) d))
Answers (rename p q) d r d' =
    ((r ≡ false) × (d' ≡ d)) ⊎ ((r ≡ true) × (d' ≡ put q (d p) (put p none d)))
Answers (remove_file p) d r d' =
    ((r ≡ not_removed) × (d' ≡ d))
    ⊎ (((d p ≡ none) × (r ≡ not_found) × (d' ≡ d)) ⊎ ((r ≡ removed) × (d' ≡ put p none d)))

-- A program over the calls: it is finished, or calls and goes on by the reply.
pub data Task (E A : Type 0) : Type 0 where
  finished : Result E A → Task E A
  call : (c : Call) → (Reply c → Task E A) → Task E A

module _ {E : Type 0} where
  infixl 10 ◌>>=◌
  -- `?`: an error ends the program.
  abbrev pub ◌>>=◌ : {A B : Type 0} → Task E A → (A → Task E B) → Task E B
  finished (ok a) >>= f = f a
  finished (err e) >>= f = finished (err e)
  finished panic >>= f = finished panic
  call c k >>= f = call c (λ r. k r >>= f)

  abbrev pub ask : (c : Call) → Task E (Reply c)
  ask c = call c (λ r. finished (ok r))

  abbrev pub return : {A : Type 0} → A → Task E A
  return a = finished (ok a)

  abbrev pub fail : {A : Type 0} → E → Task E A
  fail e = finished (err e)

  -- `map_err`
  abbrev pub map_error : {A F : Type 0} → (E → F) → Task E A → Task F A
  map_error f (finished (ok a)) = finished (ok a)
  map_error f (finished (err e)) = finished (err (f e))
  map_error f (finished panic) = finished panic
  map_error f (call c k) = call c (λ r. map_error f (k r))

  -- The outcome as a value, for a caller that goes on after an error.
  abbrev pub caught : {A F : Type 0} → Task E A → Task F (Result E A)
  caught (finished (ok a)) = finished (ok (ok a))
  caught (finished (err e)) = finished (ok (err e))
  caught (finished panic) = finished panic
  caught (call c k) = call c (λ r. caught (k r))

-- The disks that a run of the program passes: a machine that stops leaves one of them.
pub data Reached {E A : Type 0} (now : Disk) : Disk → Task E A → Type 0 where
  here : {d : Disk} {t : Task E A} → now ≡ d → Reached now d t
  passing :
      {c : Call} {k : Reply c → Task E A} {d d' : Disk} (r : Reply c)
      → Answers c d r d'
      → Reached now d' (k r)
      → Reached now d (call c k)

-- What a whole run of the program comes to.
pub data Ends {E A : Type 0} (now : Disk) (result : Result E A) : Disk → Task E A → Type 0 where
  end : Ends now result now (finished result)
  next :
      {c : Call} {k : Reply c → Task E A} {d d' : Disk} (r : Reply c)
      → Answers c d r d'
      → Ends now result d' (k r)
      → Ends now result d (call c k)

-- A run in which a call fails only where the disk makes it.
abbrev pub answer : (c : Call) → Disk → Reply c × Disk
answer (symlink_metadata p) d = (type_of (d p), d)
answer (read_file p) d = (content_of (d p), d)
answer (open_truncated p) d =
    if is_openable (d p) then (true, put p (some (unsynced [])) d) else (false, d)
answer (write_all p bytes) d = (true, put p (some (unsynced bytes)) d)
answer (sync_all p) d = (true, put p (synced (d p)) d)
answer (rename p q) d = (true, put q (d p) (put p none d))
answer (remove_file p) d = elim (d p) [ none ↦ (not_found, d) | some n ↦ (removed, put p none d) ]

abbrev pub run : {E A : Type 0} → Task E A → Disk → Result E A × Disk
run (finished r) d = (r, d)
run (call c k) d = let (r, d') = answer c d in run (k r) d'

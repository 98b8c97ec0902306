-- ===== src/Files/Rules.antt =====
-- What every run of a program keeps: a rule for each way a program is built, and that what the
-- rules show holds of every disk a run passes and of every end.
use gabbro.Files.{
  Answers, Call, Disk, Ends, FileName, Reached, Reply, Task, content_of, map_error, next, finished,
  here, ask, call, passing, ◌>>=◌, read_file, end, caught,
}
use gabbro.Prelude.{err, none, ok, subst, sym, ◌≡◌, ◌⊎◌, arith, panic, ◌≢◌}

-- `I` holds of every disk on the way and `Q` of a value at the end; nothing panics.
pub data Keeps {E A : Type 0} (I : Disk → Type 0) (Q : A → Disk → Type 0)
    : Disk → Task E A → Type 0 where
  returns : {a : A} {d : Disk} → I d → Q a d → Keeps I Q d (finished (ok a))
  fails : {e : E} {d : Disk} → I d → Keeps I Q d (finished (err e))
  calls :
      {c : Call} {k : Reply c → Task E A} {d : Disk}
      → I d
      → ((r : Reply c) (d' : Disk) → Answers c d r d' → Keeps I Q d' (k r))
      → Keeps I Q d (call c k)

module _ {I : Disk → Type 0} where
  pub Keeps-here :
      {E A : Type 0} {Q : A → Disk → Type 0} {d : Disk} {t : Task E A} → Keeps I Q d t → I d
  Keeps-here (returns i q) = i
  Keeps-here (fails i) = i
  Keeps-here (calls i h) = i

  pub Reached-Keeps :
      {E A : Type 0} {Q : A → Disk → Type 0} {now d : Disk} {t : Task E A}
      → Reached now d t
      → Keeps I Q d t
      → I now
  Reached-Keeps (here e) h = subst I (sym e) (Keeps-here h)
  Reached-Keeps (passing r a later) (calls i h) = Reached-Keeps later (h r _ a)

  pub Ends-Keeps :
      {E A : Type 0} {Q : A → Disk → Type 0} {now : Disk} {a : A} {d : Disk} {t : Task E A}
      → Ends now (ok a) d t
      → Keeps I Q d t
      → Q a now
  Ends-Keeps end (returns i q) = q
  Ends-Keeps (next r a later) (calls i h) = Ends-Keeps later (h r _ a)

  pub Keeps-bind :
      {E A B : Type 0} {Q : A → Disk → Type 0} {R : B → Disk → Type 0} {d : Disk} {t : Task E A}
      {f : A → Task E B}
      → Keeps I Q d t
      → ((a : A) (d' : Disk) → I d' → Q a d' → Keeps I R d' (f a))
      → Keeps I R d (t >>= f)
  Keeps-bind (returns i q) go = go _ _ i q
  Keeps-bind (fails i) go = fails i
  Keeps-bind (calls i h) go = calls i (λ r d' a. Keeps-bind (h r d' a) go)

  pub Keeps-map_error :
      {E F A : Type 0} {Q : A → Disk → Type 0} {d : Disk} {t : Task E A} (f : E → F)
      → Keeps I Q d t
      → Keeps I Q d (map_error f t)
  Keeps-map_error f (returns i q) = returns i q
  Keeps-map_error f (fails i) = fails i
  Keeps-map_error f (calls i h) = calls i (λ r d' a. Keeps-map_error f (h r d' a))

  -- A call, by what its answers keep.
  pub Keeps-ask :
      {E : Type 0} {d : Disk} (c : Call)
      → I d
      → ((r : Reply c) (d' : Disk) → Answers c d r d' → I d')
      → Keeps {E = E} I (λ r d'. Answers c d r d') d (ask c)
  Keeps-ask c i h = calls i (λ r d' a. returns (h r d' a) a)

  pub Keeps-read :
      {E : Type 0} {d : Disk} (p : FileName)
      → I d
      → Keeps {E = E} I
          (λ r d'. (d' ≡ d) × ((r ≡ none) ⊎ (r ≡ content_of (d p))))
          d
          (ask (read_file p))
  Keeps-read p i = Keeps-ask (read_file p) i (λ r d' a. subst I (sym a.0) i)

  -- A weaker statement of the end.
  pub Keeps-weaken :
      {E A : Type 0} {Q R : A → Disk → Type 0} {d : Disk} {t : Task E A}
      → Keeps I Q d t
      → ((a : A) (d' : Disk) → Q a d' → R a d')
      → Keeps I R d t
  Keeps-weaken (returns i q) w = returns i (w _ _ q)
  Keeps-weaken (fails i) w = fails i
  Keeps-weaken (calls i h) w = calls i (λ r d' a. Keeps-weaken (h r d' a) w)

  pub Keeps-caught :
      {E F A : Type 0} {Q : A → Disk → Type 0} {d : Disk} {t : Task E A}
      → Keeps I Q d t
      → Keeps {E = F} I (λ r d'. r ≢ panic) d (caught t)
  Keeps-caught (returns i q) = returns i (λ e. ground arith)
  Keeps-caught (fails i) = returns i (λ e. ground arith)
  Keeps-caught (calls i h) = calls i (λ r d' a. Keeps-caught (h r d' a))

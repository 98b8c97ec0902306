-- ===== src/Files/Runs.antt =====
-- A run in which no call fails but by the disk is one of the runs, and runs of a chain.
use gabbro.Files.{
  Answers, Call, Disk, Ends, Reply, Task, is_openable, map_error, open_truncated, read_file,
  remove_file, symlink_metadata, sync_all, write_all, ◌>>=◌, run, answer, finished, rename, end,
  call, next, ask, Reached, here, passing, caught,
}
use gabbro.Prelude.{Result, ap, err, if_elim, inl, inr, ok, option_elim, panic, refl, ◌∙◌, ◌≡◌}

abbrev Answered : (c : Call) → Disk → Reply c × Disk → Type 0
Answered c d (r, d') = Answers c d r d'

answer-Answers : (c : Call) (d : Disk) → Answered c d (answer c d)
answer-Answers (symlink_metadata p) d = (refl, inr refl)
answer-Answers (read_file p) d = (refl, inr refl)
answer-Answers (open_truncated p) d =
    if_elim (Answered (open_truncated p) d) (is_openable (d p))
      (λ openable. inr (openable, refl, refl)) (λ _. inl (refl, refl))
answer-Answers (write_all p bytes) d = (bytes, refl, inr (refl, refl))
answer-Answers (sync_all p) d = inr (refl, refl)
answer-Answers (rename p q) d = inr (refl, refl)
answer-Answers (remove_file p) d =
    option_elim (Answered (remove_file p) d) (d p) (λ gone. inr (inl (gone, refl, refl)))
      (λ n _. inr (inr (refl, refl)))

pub run-Ends : {E A : Type 0} (t : Task E A) (d : Disk) → Ends (run t d).1 (run t d).0 d t
run-Ends (finished r) d = end
run-Ends (call c k) d =
    next (answer c d).0 (answer-Answers c d) (run-Ends (k (answer c d).0) (answer c d).1)

-- The run gives a value, and `Q` holds of it and the disk it leaves.
pub record Works {E A : Type 0} (Q : A → Disk → Type 0) (d : Disk) (t : Task E A) : Type 0 where
  pub value : A
  pub left : Disk
  pub runs : run t d ≡ (ok value, left)
  pub good : Q value left

abbrev pub run_next : {E A B : Type 0} → (A → Task E B) → Result E A × Disk → Result E B × Disk
run_next f (ok a, d) = run (f a) d
run_next f (err e, d) = (err e, d)
run_next f (panic, d) = (panic, d)

pub run-bind :
    {E A B : Type 0} (t : Task E A) (f : A → Task E B) (d : Disk)
    → run (t >>= f) d ≡ run_next f (run t d)
run-bind (finished (ok a)) f d = refl
run-bind (finished (err e)) f d = refl
run-bind (finished panic) f d = refl
run-bind (call c k) f d = run-bind (k (answer c d).0) f (answer c d).1

abbrev run_mapped : {E F A : Type 0} → (E → F) → Result E A × Disk → Result F A × Disk
run_mapped f (ok a, d) = (ok a, d)
run_mapped f (err e, d) = (err (f e), d)
run_mapped f (panic, d) = (panic, d)

run-map_error :
    {E F A : Type 0} (f : E → F) (t : Task E A) (d : Disk)
    → run (map_error f t) d ≡ run_mapped f (run t d)
run-map_error f (finished (ok a)) d = refl
run-map_error f (finished (err e)) d = refl
run-map_error f (finished panic) d = refl
run-map_error f (call c k) d = run-map_error f (k (answer c d).0) (answer c d).1

abbrev pub run_caught : {E F A : Type 0} → Result E A × Disk → Result F (Result E A) × Disk
run_caught (ok a, d) = (ok (ok a), d)
run_caught (err e, d) = (ok (err e), d)
run_caught (panic, d) = (panic, d)

pub run-caught :
    {E F A : Type 0} (t : Task E A) (d : Disk)
    → run (caught {F = F} t) d ≡ run_caught {F = F} (run t d)
run-caught (finished (ok a)) d = refl
run-caught (finished (err e)) d = refl
run-caught (finished panic) d = refl
run-caught (call c k) d = run-caught (k (answer c d).0) (answer c d).1

pub Works-bind :
    {E A B : Type 0} {Q : A → Disk → Type 0} {R : B → Disk → Type 0} {d : Disk} {t : Task E A}
    {f : A → Task E B}
    → Works Q d t
    → ((a : A) (d' : Disk) → Q a d' → Works R d' (f a))
    → Works R d (t >>= f)
Works-bind {d = d} {t = t} {f = f} h go =
    let rest = go h.value h.left h.good in
    record {
      value = rest.value;
      left = rest.left;
      runs = run-bind t f d ∙ ap (run_next f) h.runs ∙ rest.runs;
      good = rest.good;
    }

pub Works-map_error :
    {E F A : Type 0} {Q : A → Disk → Type 0} {d : Disk} {t : Task E A} (f : E → F)
    → Works Q d t
    → Works Q d (map_error f t)
Works-map_error {d = d} {t = t} f h = record {
  value = h.value;
  left = h.left;
  runs = run-map_error f t d ∙ ap (run_mapped f) h.runs;
  good = h.good;
}

pub Works-ask :
    {E : Type 0} (c : Call) (d : Disk)
    → Works {E = E} (λ r d'. (r ≡ (answer c d).0) × (d' ≡ (answer c d).1)) d (ask c)
Works-ask c d = record {
  value = (answer c d).0;
  left = (answer c d).1;
  runs = refl;
  good = (refl, refl);
}

pub Works-weaken :
    {E A : Type 0} {Q R : A → Disk → Type 0} {d : Disk} {t : Task E A}
    → Works Q d t
    → ((a : A) (d' : Disk) → Q a d' → R a d')
    → Works R d t
Works-weaken h w = record {
  value = h.value;
  left = h.left;
  runs = h.runs;
  good = w h.value h.left h.good;
}

pub Ends-Reached :
    {E A : Type 0} {now : Disk} {r : Result E A} {d : Disk} {t : Task E A}
    → Ends now r d t
    → Reached now d t
Ends-Reached end = here refl
Ends-Reached (next r a later) = passing r a (Ends-Reached later)

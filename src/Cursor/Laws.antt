-- ===== src/Cursor/Laws.antt =====
-- How readers compose: a reader reads back what was printed, and never panics.
use native.Mathlib.Nat.{add-zero, add_assoc, mod-eq_of_lt}
use gabbro.Prelude.{
  ℕ, ◌+◌, ◌^◌, ◌<◌, ◌≡◌, ◌≢◌, refl, ◌++◌, append_assoc, Result, ok, err, panic, arith, length,
  length-append, get_or, ltb, le→ltb, Bool, true, false, [], ◌∷◌, ◌≤◌, take-append, drop-append,
  subst, append-nil,
}
use gabbro.Bytes.{Bytes, to_be, from_be, prefixed}
use gabbro.Bytes.Words.{length-to_be, from_be-to_be}
use gabbro.Cursor.{
  Cursor, Reader, usize_mod, pure, fail, continue, ◌>>=◌, ◌>>◌, guard, need, read, read_byte,
  slice_word, read_word, read_prefixed,
}

-- `m` reads `bytes` as `a` wherever they stand, and stops right behind them.
pub record Reads {E A : Type 0} (m : Reader E A) (bytes : Bytes) (a : A) : Type 0 where
  pub at :
      (pos : ℕ) (rest : Bytes)
      → pos + length bytes < usize_mod
      → m (record { pos = pos; rest = bytes ++ rest })
        ≡ ok (a, record { pos = pos + length bytes; rest = rest })

-- `m` ends in a value or an error at every cursor.
pub record NoPanic {E A : Type 0} (m : Reader E A) : Type 0 where
  pub at : (c : Cursor) → m c ≢ panic

module _ {E A : Type 0} where
  pub Reads-pure : (a : A) → Reads {E = E} (pure a) [] a
  Reads-pure a = record { at = λ pos rest h. rw add-zero }

  pub NoPanic-pure : (a : A) → NoPanic {E = E} (pure a)
  NoPanic-pure a = record { at = λ c e. cc }

  pub NoPanic-fail : (e : E) → NoPanic {A = A} (fail e)
  NoPanic-fail e = record { at = λ c e. cc }

module _ {E A B : Type 0} where
  pub Reads-bind :
      {m : Reader E A} (f : A → Reader E B) {xs ys : Bytes} {a : A} {b : B}
      → Reads m xs a
      → Reads (f a) ys b
      → Reads (m >>= f) (xs ++ ys) b
  unfolding ◌>>=◌
  Reads-bind {m} f {xs} {ys} {a} {b} hm hf = record {
    at = λ pos rest h.
        let first = hm.at pos (ys ++ rest) (omega (arith, length-append xs ys)) in
        let second = hf.at (pos + length xs) rest (omega (arith, length-append xs ys)) in
        rw (append_assoc, first, second, length-append, add_assoc);
  }

  -- The last step of a block that returns a value made from what was read.
  pub Reads-last :
      {m : Reader E A} (g : A → B) {xs : Bytes} {a : A}
      → Reads m xs a
      → Reads (m >>= λ x. pure (g x)) xs (g a)
  unfolding ◌>>=◌
  Reads-last g hm = record { at = λ pos rest h. rw (hm.at pos rest h) }

  -- A block whose later steps read nothing.
  pub Reads-bind_end :
      {m : Reader E A} (f : A → Reader E B) {xs : Bytes} {a : A} {b : B}
      → Reads m xs a
      → Reads (f a) [] b
      → Reads (m >>= f) xs b
  Reads-bind_end {m} f {xs} {a} {b} hm hf =
      subst (λ ys. Reads (m >>= f) ys b) (append-nil xs) (Reads-bind f hm hf)

  pub NoPanic-bind :
      {m : Reader E A} (f : A → Reader E B)
      → NoPanic m
      → ((a : A) → NoPanic (f a))
      → NoPanic (m >>= f)
  unfolding ◌>>=◌
  NoPanic-bind {m} f hm hf = record { at = λ c. go c (m c) refl }
    where
      go : (c : Cursor) (r : Result E (A × Cursor)) → m c ≡ r → continue r f ≢ panic
      go c (ok (a, c')) e = (hf a).at c'
      go c (err x) e = λ h. cc
      go c panic e = λ h. hm.at c e

module _ {E : Type 0} where
  pub Reads-read : (e : E) (bytes : Bytes) {n : ℕ} → length bytes ≡ n → Reads (read e n) bytes bytes
  unfolding read
  Reads-read e bytes {n} h = record {
    at = λ pos rest fits.
        ground
          (arith, length-append bytes rest, take-append n bytes rest h, drop-append n bytes rest h);
  }

  pub NoPanic-read : (e : E) (n : ℕ) → NoPanic (read e n)
  unfolding read
  NoPanic-read e n = record { at = λ c. ground arith }

  pub NoPanic-need : (e : E) (n : ℕ) → NoPanic (need e n)
  unfolding need
  NoPanic-need e n = record { at = λ c. ground arith }

  pub Reads-read_word : (e : E) (n v : ℕ) → v < 256 ^ n → Reads (read_word e n) (to_be n v) v
  unfolding read_word
  Reads-read_word e n v small = record {
    at = λ pos rest fits.
        rw
          ((Reads-read e (to_be n v) (length-to_be n v)).at pos rest fits, from_be-to_be n v small);
  }

  pub NoPanic-read_word : (e : E) (n : ℕ) → NoPanic (read_word e n)
  unfolding read_word
  NoPanic-read_word e n = NoPanic-bind _ (NoPanic-read e n) (λ bs. NoPanic-pure (from_be bs))

  pub Reads-slice_word : (n v : ℕ) → v < 256 ^ n → Reads (slice_word {E = E} n) (to_be n v) v
  unfolding slice_word
  Reads-slice_word n v small = record {
    at = λ pos rest fits. ground (
      arith,
      length-append (to_be n v) rest,
      length-to_be n v,
      take-append n (to_be n v) rest (length-to_be n v),
      drop-append n (to_be n v) rest (length-to_be n v),
      from_be-to_be n v small,
    );
  }

  pub Reads-read_byte : (e : E) (b : ℕ) → Reads (read_byte e) (b ∷ []) b
  unfolding read_byte ◌>>=◌
  Reads-read_byte e b = record {
    at = λ pos rest fits. rw ((Reads-read e (b ∷ []) refl).at pos rest fits) refl;
  }

  pub NoPanic-read_byte : (e : E) → NoPanic (read_byte e)
  unfolding read_byte
  NoPanic-read_byte e = NoPanic-bind _ (NoPanic-read e 1) (λ bs. NoPanic-pure (get_or bs 0 0))

  pub Reads-guard : {b : Bool} (e : E) → b ≡ true → Reads (guard b e) [] tt
  unfolding guard
  Reads-guard e h = record { at = λ pos rest fits. rw (h, add-zero) }

  pub NoPanic-guard : (b : Bool) (e : E) → NoPanic (guard b e)
  unfolding guard
  NoPanic-guard b e = record { at = λ c. ground arith }

module _ {E A : Type 0} where
  -- A length check passes in front of a reader whose bytes are long enough.
  pub Reads-need :
      (e : E) (n : ℕ) {m : Reader E A} {bytes : Bytes} {a : A}
      → n ≤ length bytes
      → Reads m bytes a
      → Reads (need e n >> m) bytes a
  unfolding need ◌>>=◌
  Reads-need e n {m} {bytes} enough h = record {
    at = λ pos rest fits.
        let long : ltb (length (bytes ++ rest)) n ≡ false =
          le→ltb _ _ (omega (arith, length-append bytes rest)) in
        rw long (h.at pos rest fits);
  }

module _ {E : Type 0} where
  pub Reads-read_prefixed :
      (e f : E) (n : ℕ) (bytes : Bytes)
      → length bytes < 256 ^ n
      → Reads (read_prefixed e f n) (prefixed n bytes) bytes
  unfolding read_prefixed prefixed
  Reads-read_prefixed e f n bytes fits =
      rw (mod-eq_of_lt fits)
        (Reads-bind (read f) (Reads-read_word e n (length bytes) fits) (Reads-read f bytes refl))

  pub NoPanic-read_prefixed : (e f : E) (n : ℕ) → NoPanic (read_prefixed e f n)
  unfolding read_prefixed
  NoPanic-read_prefixed e f n = NoPanic-bind _ (NoPanic-read_word e n) (NoPanic-read f)

pub ruleset no_panic_rules = (
  NoPanic-pure, NoPanic-fail, NoPanic-bind, NoPanic-read, NoPanic-need, NoPanic-read_word,
  NoPanic-read_byte, NoPanic-guard, NoPanic-read_prefixed,
)

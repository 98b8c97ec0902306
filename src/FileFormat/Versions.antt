-- ===== src/FileFormat/Versions.antt =====
-- What happens to files of other format versions.
use gabbro.Bytes.{Bytes}
use gabbro.FileFormat.{
  peek_version, is_format_too_new, from_bytes, is_format_too_old, FormatError, read_version, magic,
  version, newer_version, too_short, version_min_readable, unsupported_version, not_gabbro,
  truncated, Field,
}
use gabbro.Prelude.{
  ◌≡◌, true, ◌∷◌, ◌++◌, ◌<◌, arith, map_ok-eq-ok, ltb→lt, refl, subst, sym, err, ℕ, ok, [],
}
use gabbro.Cursor.Laws.{Reads-read, Reads-guard, Reads-read_byte}
use gabbro.Bytes.Equal.{eq_of_bytes_eq, bytes_eq_refl}
use gabbro.Cursor.{◌>>=◌, guard}

-- A file with a version byte: the magic, the byte and whatever follows.
peek_version_shape :
    (bytes : Bytes) (v : ℕ)
    → peek_version bytes ≡ ok v
    → (rest : Bytes) × (bytes ≡ magic ++ (v ∷ rest))
unfolding peek_version
peek_version_shape (a ∷ b ∷ c ∷ d ∷ e ∷ f ∷ x ∷ rest) v h =
    (rest, ground (arith, eq_of_bytes_eq (a ∷ b ∷ c ∷ d ∷ e ∷ f ∷ []) magic))
peek_version_shape bytes v h = absurd (ground arith)

refused_version :
    (v : ℕ) (rest : Bytes) (e : FormatError)
    → read_version (record { pos = 6; rest = v ∷ rest }) ≡ err e
    → from_bytes (magic ++ (v ∷ rest)) ≡ err e
unfolding from_bytes ◌>>=◌
refused_version v rest e h = rw (
  (Reads-read too_short magic refl).at 0 (v ∷ rest) (omega arith),
  (Reads-guard not_gabbro (bytes_eq_refl magic)).at 6 (v ∷ rest) (omega arith),
  h,
)

newer_refused :
    (v : ℕ) (rest : Bytes) → version < v → from_bytes (magic ++ (v ∷ rest)) ≡ err (newer_version v)
newer_refused v rest above = refused_version v rest (newer_version v) (
    unfold read_version guard ◌>>=◌ in
    ground (arith, (Reads-read_byte (truncated Field.version_byte) v).at 6 rest (omega arith)))

older_refused :
    (v : ℕ) (rest : Bytes)
    → v < version_min_readable
    → from_bytes (magic ++ (v ∷ rest)) ≡ err (unsupported_version v)
older_refused v rest below = refused_version v rest (unsupported_version v) (
    unfold read_version guard ◌>>=◌ in
    ground (arith, (Reads-read_byte (truncated Field.version_byte) v).at 6 rest (omega arith)))

-- A file that is called too new is refused with its version, which is above this build's; one that
-- is called too old is refused with its version, which is below the oldest readable one.
version_refused :
    (bytes : Bytes)
    → (is_format_too_new bytes ≡ ok true
        → (v : ℕ) × (version < v) × (from_bytes bytes ≡ err (newer_version v)))
      × (is_format_too_old bytes ≡ ok true
          → (v : ℕ) × (v < version_min_readable) × (from_bytes bytes ≡ err (unsupported_version v)))
unfolding is_format_too_new is_format_too_old
version_refused bytes = (
  (λ new.
      let (v, peeked, above) = map_ok-eq-ok _ (peek_version bytes) new in
      let (rest, shape) = peek_version_shape bytes v peeked in
      (
        v,
        ltb→lt version v above,
        subst (λ b. from_bytes b ≡ err (newer_version v)) (sym shape)
            (newer_refused v rest (ltb→lt version v above)),
      )),
  (λ old.
      let (v, peeked, below) = map_ok-eq-ok _ (peek_version bytes) old in
      let (rest, shape) = peek_version_shape bytes v peeked in
      (
        v,
        ltb→lt v version_min_readable below,
        subst (λ b. from_bytes b ≡ err (unsupported_version v)) (sym shape)
            (older_refused v rest (ltb→lt v version_min_readable below)),
      )),
)

-- ===== src/Storage/Siblings.antt =====
-- The siblings of a path are different names.
use gabbro.Bytes.{Bytes, bytes_eq}
use gabbro.Files.{Disk, FileName, Node, put}
use gabbro.Prelude.{
  Option, [], append-nil, append_assoc, arith, codes, false, refl, subst, sym, ◌++◌, ◌∷◌, ◌≡◌,
}
use gabbro.Storage.{bak_path, tmp_path, pre_restore_path}
use gabbro.Bytes.Equal.{bytes_eq_refl}

pub bytes_eq-append : (p s t : Bytes) → bytes_eq (p ++ s) (p ++ t) ≡ bytes_eq s t
unfolding bytes_eq
bytes_eq-append [] s t = refl
bytes_eq-append (x ∷ p) s t = ground (arith, bytes_eq-append p s t)

pub bytes_eq-path : (p t : Bytes) → bytes_eq p (p ++ t) ≡ bytes_eq [] t
bytes_eq-path p t =
    subst (λ q. bytes_eq q (p ++ t) ≡ bytes_eq [] t) (append-nil p) (bytes_eq-append p [] t)

pub bytes_eq-sibling : (p t : Bytes) → bytes_eq (p ++ t) p ≡ bytes_eq t []
bytes_eq-sibling p t =
    subst (λ q. bytes_eq (p ++ t) q ≡ bytes_eq t []) (append-nil p) (bytes_eq-append p t [])

pub put-here : (p : FileName) (n : Option Node) (d : Disk) → put p n d p ≡ n
put-here p n d = rw (bytes_eq_refl p) refl

pub put-other :
    (p q : FileName) (n : Option Node) (d : Disk) → bytes_eq p q ≡ false → put p n d q ≡ d q
put-other p q n d h = rw h refl

pub tmp-ne-path : (p : FileName) → bytes_eq (tmp_path p) p ≡ false
unfolding bytes_eq
tmp-ne-path p = bytes_eq-sibling p (codes ".tmp")

pub tmp-ne-bak : (p : FileName) → bytes_eq (tmp_path p) (bak_path p) ≡ false
unfolding bytes_eq
tmp-ne-bak p = bytes_eq-append p (codes ".tmp") (codes ".bak")

pub path-ne-bak : (p : FileName) → bytes_eq p (bak_path p) ≡ false
unfolding bytes_eq
path-ne-bak p = bytes_eq-path p (codes ".bak")

pub bak-ne-path : (p : FileName) → bytes_eq (bak_path p) p ≡ false
unfolding bytes_eq
bak-ne-path p = bytes_eq-sibling p (codes ".bak")

pub bak_tmp-ne-path : (p : FileName) → bytes_eq (tmp_path (bak_path p)) p ≡ false
unfolding bytes_eq
bak_tmp-ne-path p =
    subst (λ q. bytes_eq q p ≡ false) (sym (append_assoc p (codes ".bak") (codes ".tmp")))
      (bytes_eq-sibling p (codes ".bak" ++ codes ".tmp"))

pub path-ne-tmp : (p : FileName) → bytes_eq p (tmp_path p) ≡ false
unfolding bytes_eq
path-ne-tmp p = bytes_eq-path p (codes ".tmp")

pub bak-ne-tmp : (p : FileName) → bytes_eq (bak_path p) (tmp_path p) ≡ false
unfolding bytes_eq
bak-ne-tmp p = bytes_eq-append p (codes ".bak") (codes ".tmp")

pub tmp-ne-bak_tmp : (p : FileName) → bytes_eq (tmp_path p) (tmp_path (bak_path p)) ≡ false
unfolding bytes_eq
tmp-ne-bak_tmp p =
    subst (λ q. bytes_eq (tmp_path p) q ≡ false)
      (sym (append_assoc p (codes ".bak") (codes ".tmp")))
      (bytes_eq-append p (codes ".tmp") (codes ".bak" ++ codes ".tmp"))

pub bak_tmp-ne-tmp : (p : FileName) → bytes_eq (tmp_path (bak_path p)) (tmp_path p) ≡ false
unfolding bytes_eq
bak_tmp-ne-tmp p =
    subst (λ q. bytes_eq q (tmp_path p) ≡ false)
      (sym (append_assoc p (codes ".bak") (codes ".tmp")))
      (bytes_eq-append p (codes ".bak" ++ codes ".tmp") (codes ".tmp"))

pub path-ne-bak_tmp : (p : FileName) → bytes_eq p (tmp_path (bak_path p)) ≡ false
unfolding bytes_eq
path-ne-bak_tmp p =
    subst (λ q. bytes_eq p q ≡ false) (sym (append_assoc p (codes ".bak") (codes ".tmp")))
      (bytes_eq-path p (codes ".bak" ++ codes ".tmp"))

pub pre-ne-path : (p : FileName) → bytes_eq (pre_restore_path p) p ≡ false
unfolding bytes_eq
pre-ne-path p = bytes_eq-sibling p (codes ".pre-restore")

pub pre_tmp-ne-path : (p : FileName) → bytes_eq (tmp_path (pre_restore_path p)) p ≡ false
unfolding bytes_eq
pre_tmp-ne-path p =
    subst (λ q. bytes_eq q p ≡ false) (sym (append_assoc p (codes ".pre-restore") (codes ".tmp")))
      (bytes_eq-sibling p (codes ".pre-restore" ++ codes ".tmp"))

-- ===== src/Crypto/Keys/Histories.antt =====
-- A registered key and the changes of its file.
use gabbro.Prelude.{
  not, leb, ok, ◌≡◌, refl, ◌∙◌, sym, subst, length, some, none, eq_of_ok, ◌++◌, [], ◌∷◌, Option,
  true, arith, ◌+◌,
}
use gabbro.Prelude.Chains.{>>=-eq-ok, ensure-eq-ok, ok_or, ensure}
use gabbro.Bytes.{Bytes}
use gabbro.FileFormat.{SealedVault, YubiKeyRecord}
use gabbro.Crypto.{
  Primitives, IsSound, already_registered, last_key, record_not_found, too_many_keys,
  combine_yubikey,
}
use gabbro.Crypto.Sealing.{reseal_vault_body}
use gabbro.Crypto.Keys.{
  YubiKeyRegistration, find_record, without_record, record_of, open_vault_with_key_record,
  add_key_to_sealed, remove_key_from_sealed, key_in_blob, is_none, opened_blob,
}
use gabbro.Crypto.Keys.Unlock.{Unlocks, opened_iff, opened-key_in_blob}
use gabbro.Crypto.Keys.Changes.{
  Changed, History, IsOpened, KeyedFile, saved, renamed, key_added, key_removed, passphrase_changed,
  start, then_changed, Unlocks-records, Unlocks-passphrase, open-reseal_vault_body,
  find_record-append, find_record-last, find_record-without_record,
}

none_of_is_none : (o : Option YubiKeyRecord) → is_none o ≡ true → o ≡ none
none_of_is_none none h = refl
none_of_is_none (some r) h = cc

module _ (p : Primitives) where
  -- What a key is added as, behind the others.
  pub added_record :
      (iv : Bytes) (v : SealedVault) (k : YubiKeyRegistration) (wrapping master : Bytes)
      (v' : SealedVault)
      → add_key_to_sealed p iv v k wrapping master ≡ ok v'
      → (r : YubiKeyRecord) × (record_of p wrapping master iv k ≡ ok r)
        × (v' ≡ record v { yubikey_records = v.yubikey_records ++ (r ∷ []) })
        × (find_record k.credential_id v.yubikey_records ≡ none)
  unfolding add_key_to_sealed
  added_record iv v k wrapping master v' h =
      let (_, _, h1) =
        >>=-eq-ok
          (ensure (too_many_keys (length v.yubikey_records))
            (not (leb 4 (length v.yubikey_records))))
          _ h in
      let (_, new, h2) =
        >>=-eq-ok
          (ensure already_registered (is_none (find_record k.credential_id v.yubikey_records))) _
          h1 in
      let (r, at_r, made) = >>=-eq-ok (record_of p wrapping master iv k) _ h2 in
      (r, at_r, sym (eq_of_ok made), none_of_is_none _ (ensure-eq-ok already_registered _ new))

  kept_records :
      (v : SealedVault) (gone : Bytes) (v' : SealedVault)
      → remove_key_from_sealed v gone ≡ ok v'
      → v' ≡ record v { yubikey_records = without_record gone v.yubikey_records }
  unfolding remove_key_from_sealed
  kept_records v gone v' h =
      let (_, _, h1) =
        >>=-eq-ok (ok_or record_not_found (find_record gone v.yubikey_records)) _ h in
      let (_, _, made) =
        >>=-eq-ok (ensure last_key (not (leb (length v.yubikey_records) 1))) _ h1 in
      sym (eq_of_ok made)

  Unlocks-alias :
      {passphrase hmac_secret credential : Bytes} {v : SealedVault} {wrapping master : Bytes}
      (name : Option Bytes)
      → Unlocks p passphrase hmac_secret credential v wrapping master
      → Unlocks p passphrase hmac_secret credential (record v { alias = name }) wrapping master
  Unlocks-alias name u = record {
    intermediate = u.intermediate;
    keyed = u.keyed;
    found = u.found;
    at_found = u.at_found;
    blob_length = u.blob_length;
    blob_opens = u.blob_opens;
    wrapping_length = u.wrapping_length;
    key_blob_length = u.key_blob_length;
    key_opens = u.key_opens;
    master_length = u.master_length;
  }

  module _ (sound : IsSound p) (hmac_secret credential wrapping master : Bytes) where
    Unlocks-IsOpened :
        (f : KeyedFile)
        → IsOpened p hmac_secret credential wrapping master f
        → Unlocks p f.passphrase hmac_secret credential f.sealed wrapping master
    Unlocks-IsOpened f h = ((opened_iff p _ _ _ _ _ _ _).0 h.opens).0

    Changed-IsOpened :
        (f g : KeyedFile)
        → IsOpened p hmac_secret credential wrapping master f
        → Changed p wrapping master credential f g
        → IsOpened p hmac_secret credential wrapping master g
    Changed-IsOpened _ _ h (saved f iv text v e) = record {
      opens =
          open-reseal_vault_body p sound _ _ _ f.sealed wrapping master iv text v
            (Unlocks-IsOpened f h) e;
    }
    Changed-IsOpened _ _ h (renamed f name iv text v e) = record {
      opens =
          open-reseal_vault_body p sound _ _ _ _ wrapping master iv text v
            (Unlocks-alias name (Unlocks-IsOpened f h)) e;
    }
    Changed-IsOpened _ _ h (key_added f k blob_nonce iv text added v e1 e2) =
        let (r, _, made, _) = added_record blob_nonce f.sealed k wrapping master added e1 in
        let u = Unlocks-IsOpened f h in
        let kept =
          Unlocks-records p sound (f.sealed.yubikey_records ++ (r ∷ [])) u
            (find_record-append credential f.sealed.yubikey_records r u.found u.at_found) in
        record {
          opens =
              open-reseal_vault_body p sound _ _ _ added wrapping master iv text v
                (subst (λ x. Unlocks p f.passphrase hmac_secret credential x wrapping master)
                  (sym made) kept)
                e2;
        }
    Changed-IsOpened _ _ h (key_removed f gone iv text rest v ne e1 e2) =
        let u = Unlocks-IsOpened f h in
        let kept =
          Unlocks-records p sound (without_record gone f.sealed.yubikey_records) u
            (find_record-without_record credential gone f.sealed.yubikey_records ne ∙ u.at_found) in
        record {
          opens =
              open-reseal_vault_body p sound _ _ _ rest wrapping master iv text v
                (subst (λ x. Unlocks p f.passphrase hmac_secret credential x wrapping master)
                  (sym (kept_records f.sealed gone rest e1)) kept)
                e2;
        }
    Changed-IsOpened _ _ h (passphrase_changed f fresh new iv text changed v hn e1 e2) = record {
      opens =
          open-reseal_vault_body p sound _ _ _ changed wrapping master iv text v
            (Unlocks-passphrase p sound fresh f.passphrase new hmac_secret credential f.sealed
              wrapping master changed hn (Unlocks-IsOpened f h) e1)
            e2;
    }

    -- Saves, new aliases, keys added, other keys removed and new passphrases, in any order and
    -- number: a key that opened the file goes on opening it, under its passphrase of then, to the
    -- body that was sealed last, with the same two keys.
    pub History-IsOpened :
        (f g : KeyedFile)
        → IsOpened p hmac_secret credential wrapping master f
        → History p wrapping master credential f g
        → IsOpened p hmac_secret credential wrapping master g
    History-IsOpened _ _ h (start f) = h
    History-IsOpened _ _ h (then_changed f mid g before change) =
        Changed-IsOpened mid g (History-IsOpened f mid h before) change

  -- What a record is that was made for a key.
  pub record_of-opens :
      IsSound p
      → (wrapping master iv : Bytes) (k : YubiKeyRegistration) (r : YubiKeyRecord) → length iv ≡ 12
      → record_of p wrapping master iv k ≡ ok r
      → (r.credential_id ≡ k.credential_id)
        × (opened_blob p (combine_yubikey p wrapping k.hmac_secret r.salt) r.key_blob ≡ ok master)
        × (length r.key_blob ≡ 28 + length master)
  unfolding record_of
  record_of-opens sound wrapping master iv k r hn h =
      let under = combine_yubikey p wrapping k.hmac_secret k.salt in
      let (blob, at_blob, made) = >>=-eq-ok (key_in_blob p under iv master) _ h in
      let same : r ≡ record { credential_id = k.credential_id; salt = k.salt; key_blob = blob } =
        sym (eq_of_ok made) in
      let opens = opened-key_in_blob p sound under iv master hn blob at_blob in
      rw same (refl, opens.0, opens.1)

  -- A key that is added to a file which another key opens, and whose body is then sealed again, opens
  -- it under the same passphrase to that body and the same two keys.
  pub open-add_key_to_sealed :
      IsSound p
      → (passphrase hmac_secret credential : Bytes) (v : SealedVault)
        (plaintext wrapping master blob_nonce iv text : Bytes) (k : YubiKeyRegistration)
        (added v' : SealedVault)
      → length blob_nonce ≡ 12
      → open_vault_with_key_record p passphrase hmac_secret credential v
        ≡ ok (plaintext, master, some wrapping)
      → add_key_to_sealed p blob_nonce v k wrapping master ≡ ok added
      → reseal_vault_body p iv added master text ≡ ok v'
      → open_vault_with_key_record p passphrase k.hmac_secret k.credential_id v'
        ≡ ok (text, master, some wrapping)
  open-add_key_to_sealed sound passphrase hmac_secret credential v plaintext wrapping master
        blob_nonce iv text k added v' hn h e1 e2 =
      let u =
        ((opened_iff p passphrase hmac_secret credential v plaintext wrapping master).0 h).0 in
      let (r, at_r, made, free) = added_record blob_nonce v k wrapping master added e1 in
      let (id_same, opens, sized) = record_of-opens sound wrapping master blob_nonce k r hn at_r in
      let new : Unlocks p passphrase k.hmac_secret k.credential_id
          (record v { yubikey_records = v.yubikey_records ++ (r ∷ []) }) wrapping master =
        record {
          intermediate = u.intermediate;
          keyed = u.keyed;
          found = r;
          at_found = find_record-last k.credential_id v.yubikey_records r free id_same;
          blob_length = u.blob_length;
          blob_opens = u.blob_opens;
          wrapping_length = u.wrapping_length;
          key_blob_length = omega (arith, sized, u.master_length);
          key_opens = opens;
          master_length = u.master_length;
        } in
      open-reseal_vault_body p sound passphrase k.hmac_secret k.credential_id added wrapping master
        iv text v'
        (subst (λ x. Unlocks p passphrase k.hmac_secret k.credential_id x wrapping master)
          (sym made) new)
        e2

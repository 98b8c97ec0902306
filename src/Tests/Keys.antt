-- ===== src/Tests/Keys.antt =====
-- A vault with two keys, and changes of it, over the ciphers of Crypto.
use gabbro.Tests.Crypto.{toy, toy-IsSound, drawn, drawn-IsDrawn, passphrase, text, value_of}
use gabbro.Prelude.{ok, ◌≡◌, refl, some, none, replicate, codes, [], ◌∷◌, List, arith, ℕ, ◌+◌, ◌≢◌}
use gabbro.Bytes.{Bytes, bytes_eq, to_be}
use gabbro.Crypto.Keys.Creation.{IsDrawnKeys, first_with, open-seal_vault_with_keys}
use gabbro.Crypto.Keys.{
  KeysRandom, YubiKeyRegistration, open_vault_with_key_record, seal_vault_with_keys,
  add_key_to_sealed, remove_key_from_sealed, change_vault_passphrase_with_keys,
}
use gabbro.FileFormat.{SealedVault, alias_text}
use gabbro.Crypto.Keys.Changes.{
  History, IsOpened, KeyedFile, then_changed, passphrase_changed, key_added, key_removed,
}
use gabbro.Crypto.Keys.Histories.{History-IsOpened, open-add_key_to_sealed}
use gabbro.Crypto.Sealing.{reseal_vault_body}

abbrev drawn_keys : KeysRandom
drawn_keys = record {
  body = drawn;
  wrapping_key = replicate 32 4;
  blob_nonce = replicate 12 5;
  vault_key_master = replicate 32 6;
  key_nonce = λ n. replicate 12 n;
}

drawn_keys-IsDrawnKeys : IsDrawnKeys drawn_keys
drawn_keys-IsDrawnKeys = record {
  body = drawn-IsDrawn;
  wrapping_key = refl;
  blob_nonce = refl;
  vault_key_master = refl;
  key_nonce = λ n. refl;
}

abbrev key_of : Bytes → ℕ → YubiKeyRegistration
key_of id n = record {
  credential_id = id;
  hmac_secret = replicate 32 n;
  salt = replicate 32 (n + 1);
}

abbrev pub first_key : YubiKeyRegistration
first_key = key_of (codes "first") 10

abbrev second_key : YubiKeyRegistration
second_key = key_of (codes "second") 20

abbrev third_key : YubiKeyRegistration
third_key = key_of (codes "third") 30

abbrev both : List YubiKeyRegistration
both = first_key ∷ second_key ∷ []

abbrev pub keyed_vault : SealedVault
keyed_vault = value_of (seal_vault_with_keys toy drawn_keys passphrase both text none)

open-seal_vault_with_keys_example :
    (v : SealedVault) × (seal_vault_with_keys toy drawn_keys passphrase both text none ≡ ok v)
    × ((id : Bytes) (k : YubiKeyRegistration)
        → first_with id both ≡ some k
        → open_vault_with_key_record toy passphrase k.hmac_secret id v
          ≡ ok (text, drawn_keys.vault_key_master, some drawn_keys.wrapping_key))
unfolding alias_text
open-seal_vault_with_keys_example =
    open-seal_vault_with_keys toy toy-IsSound drawn_keys passphrase text both none
      drawn_keys-IsDrawnKeys (omega arith) (omega arith)
      (
        record { id_fits = omega arith; salt_length = refl },
        (record { id_fits = omega arith; salt_length = refl }, tt),
      )
      (omega arith) (omega arith) (omega arith)

second_opens :
    open_vault_with_key_record toy passphrase second_key.hmac_secret (codes "second") keyed_vault
    ≡ ok (text, drawn_keys.vault_key_master, some drawn_keys.wrapping_key)
unfolding open_vault_with_key_record seal_vault_with_keys bytes_eq to_be
second_opens = refl

abbrev pub wrapping : Bytes
wrapping = drawn_keys.wrapping_key

abbrev pub master : Bytes
master = drawn_keys.vault_key_master

abbrev start_file : KeyedFile
start_file = record { passphrase = passphrase; body = text; sealed = keyed_vault }

start_file-IsOpened : IsOpened toy first_key.hmac_secret (codes "first") wrapping master start_file
unfolding open_vault_with_key_record seal_vault_with_keys bytes_eq to_be
start_file-IsOpened = record { opens = refl }

abbrev new_passphrase : Bytes
new_passphrase = codes "battery staple"

abbrev iv : Bytes
iv = replicate 12 8

abbrev changed_vault : SealedVault
changed_vault =
    value_of (change_vault_passphrase_with_keys toy drawn keyed_vault passphrase new_passphrase)

abbrev changed_file : KeyedFile
changed_file = record {
  passphrase = new_passphrase;
  body = codes "later";
  sealed = value_of (reseal_vault_body toy iv changed_vault master (codes "later"));
}

abbrev added_vault : SealedVault
added_vault = value_of (add_key_to_sealed toy iv changed_file.sealed third_key wrapping master)

abbrev added_file : KeyedFile
added_file = record changed_file {
  sealed = value_of (reseal_vault_body toy iv added_vault master (codes "later"));
}

abbrev removed_vault : SealedVault
removed_vault = value_of (remove_key_from_sealed added_file.sealed (codes "second"))

abbrev removed_file : KeyedFile
removed_file = record added_file {
  body = codes "last";
  sealed = value_of (reseal_vault_body toy iv removed_vault master (codes "last"));
}

second-ne-first : codes "second" ≢ codes "first"
second-ne-first e = cc

-- A new passphrase, a third key, and the second removed.
life : History toy wrapping master (codes "first") start_file removed_file
unfolding change_vault_passphrase_with_keys seal_vault_with_keys reseal_vault_body add_key_to_sealed
    remove_key_from_sealed bytes_eq to_be
life =
    then_changed start_file added_file removed_file
      (then_changed start_file changed_file added_file
        (then_changed start_file start_file changed_file (History.start start_file) (
          passphrase_changed start_file drawn new_passphrase iv (codes "later") changed_vault
            changed_file.sealed refl refl refl))
        (key_added changed_file third_key iv iv (codes "later") added_vault added_file.sealed refl
          refl))
      (key_removed added_file (codes "second") iv (codes "last") removed_vault removed_file.sealed
        second-ne-first refl refl)

History-IsOpened_example :
    IsOpened toy first_key.hmac_secret (codes "first") wrapping master removed_file
History-IsOpened_example =
    History-IsOpened toy toy-IsSound first_key.hmac_secret (codes "first") wrapping master
      start_file removed_file start_file-IsOpened life

first_opens :
    open_vault_with_key_record toy new_passphrase first_key.hmac_secret
      (codes "first")
      changed_file.sealed
    ≡ ok (codes "later", master, some wrapping)
unfolding open_vault_with_key_record change_vault_passphrase_with_keys seal_vault_with_keys
    reseal_vault_body bytes_eq to_be
first_opens = refl

open-add_key_to_sealed_example :
    open_vault_with_key_record toy new_passphrase third_key.hmac_secret
      (codes "third")
      added_file.sealed
    ≡ ok (codes "later", master, some wrapping)
unfolding change_vault_passphrase_with_keys seal_vault_with_keys reseal_vault_body add_key_to_sealed
    bytes_eq to_be
open-add_key_to_sealed_example =
    open-add_key_to_sealed toy toy-IsSound new_passphrase first_key.hmac_secret (codes "first")
      changed_file.sealed (codes "later") wrapping master iv iv (codes "later") third_key
      added_vault added_file.sealed refl first_opens refl refl

-- ===== src/Entry.antt =====
-- vault/entry.rs: the seven kinds of vault entry and their shared metadata.
-- `field_times`, a BTreeMap, and the fields of a custom entry, an IndexMap, are association lists.
-- An `i64` is kept as its 64-bit pattern.
pub mod History
pub mod Blob
pub mod Card
use gabbro.Prelude.{ℕ, Bool, Option, List, String}
use gabbro.Bytes.{Bytes}

pub record HistoryRecord : Type 0 where
  pub field : String
  pub value : String
  pub saved_at : String
  pub expires_at : Option String

pub record EntryMeta : Type 0 where
  pub id : String
  pub created_at : String
  pub updated_at : String
  pub folder : String
  pub field_times : List (String × ℕ)
  pub history : List HistoryRecord

pub record EntryAttachment : Type 0 where
  pub uuid : String
  pub name : String
  pub kind : String
  pub content : Bytes

pub record CustomField : Type 0 where
  pub label : String
  pub value : String
  pub hidden : Bool

pub record LoginEntry : Type 0 where
  pub meta : EntryMeta
  pub title : String
  pub url : String
  pub username : String
  pub password : String
  pub notes : Option String
  pub custom_fields : List CustomField
  pub attachments : List EntryAttachment
  pub app_id : Option String
  pub email : Option String

pub record NoteEntry : Type 0 where
  pub meta : EntryMeta
  pub title : String
  pub content : String
  pub custom_fields : List CustomField
  pub attachments : List EntryAttachment

pub record IdentityEntry : Type 0 where
  pub meta : EntryMeta
  pub first_name : String
  pub last_name : String
  pub email : String
  pub phone : Option String
  pub address : Option String
  pub custom_fields : List CustomField
  pub attachments : List EntryAttachment

pub record CardEntry : Type 0 where
  pub meta : EntryMeta
  pub card_name : Option String
  pub status : String
  pub cardholder_name : String
  pub card_number : String
  pub expiry : String
  pub cvv : String
  pub credit_limit : Option String
  pub card_account_number : Option String
  pub payment_network : Option String
  pub pin : Option String
  pub bank_name : Option String
  pub transaction_password : Option String
  pub notes : Option String
  pub custom_fields : List CustomField
  pub attachments : List EntryAttachment

pub record FileEntry : Type 0 where
  pub meta : EntryMeta
  pub filename : String
  pub content : Bytes
  pub notes : Option String
  pub custom_fields : List CustomField

pub record CustomEntry : Type 0 where
  pub meta : EntryMeta
  pub title : String
  pub fields : List (String × CustomField)
  pub attachments : List EntryAttachment

pub record PasskeyEntry : Type 0 where
  pub meta : EntryMeta
  pub rp_id : String
  pub user_name : String
  pub user_display_name : String
  pub user_handle : Bytes
  pub credential_id : Bytes
  pub private_key : Bytes
  pub public_key_cose : Bytes
  pub algorithm : ℕ
  pub notes : Option String
  pub custom_fields : List CustomField

pub data VaultEntry : Type 0 where
  login : LoginEntry → VaultEntry
  note : NoteEntry → VaultEntry
  identity : IdentityEntry → VaultEntry
  card : CardEntry → VaultEntry
  file : FileEntry → VaultEntry
  custom : CustomEntry → VaultEntry
  passkey : PasskeyEntry → VaultEntry

-- `meta_of` of vault/session.rs and `entry_meta` of api/vault.rs
abbrev pub meta_of : VaultEntry → EntryMeta
meta_of (login e) = e.meta
meta_of (note e) = e.meta
meta_of (identity e) = e.meta
meta_of (card e) = e.meta
meta_of (file e) = e.meta
meta_of (custom e) = e.meta
meta_of (passkey e) = e.meta

-- What is done through `meta_of_mut` and `entry_meta_mut`: the entry with other metadata.
abbrev pub with_meta : (EntryMeta → EntryMeta) → VaultEntry → VaultEntry
with_meta f (login e) = login (record e { meta = f e.meta })
with_meta f (note e) = note (record e { meta = f e.meta })
with_meta f (identity e) = identity (record e { meta = f e.meta })
with_meta f (card e) = card (record e { meta = f e.meta })
with_meta f (file e) = file (record e { meta = f e.meta })
with_meta f (custom e) = custom (record e { meta = f e.meta })
with_meta f (passkey e) = passkey (record e { meta = f e.meta })

abbrev pub entry_id : VaultEntry → String
entry_id e = (meta_of e).id

abbrev pub touched : String → EntryMeta → EntryMeta
touched now m = record m { updated_at = now }

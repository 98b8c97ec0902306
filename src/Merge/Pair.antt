-- ===== src/Merge/Pair.antt =====
-- `merge_entry_pair`, with the seven kinds of entry. `b64` is the base64 crate's encoder, by which
-- a clash shows bytes.
use Prim.Native.String.{◌++◌ as str_append}
use gabbro.Merge.{
  Merging, ◌>>=◌, return, pick_str, pick_opt, decide, chosen, after, new_merger, FieldMerger,
  text_or_empty, FieldConflictItem, PendingItemDeleteItem, BroughtOverItem,
}
use gabbro.Entry.Blob.{credential_blob}
use gabbro.Bytes.{Bytes, bytes_eq}
use gabbro.Entry.{
  CardEntry, CustomEntry, FileEntry, IdentityEntry, LoginEntry, NoteEntry, PasskeyEntry, VaultEntry,
  meta_of, with_meta, login, note, identity, card, file, custom, passkey,
}
use gabbro.Prelude.{List, Option, String, [], if◌then◌else◌, none, some, str_eq}
use gabbro.Merge.Finish.{finish_meta}
use gabbro.Merge.Items.{merge_attachments, merge_custom, merge_fields}

abbrev pub or_else : String → String → String
or_else a b = if str_eq a "" then b else a

unfoldable pub entry_display_title : VaultEntry → String
unfolding text_or_empty
entry_display_title (login e) = or_else e.title (or_else e.url e.meta.id)
entry_display_title (note e) = e.title
entry_display_title (identity e) = str_append e.first_name (str_append " " e.last_name)
entry_display_title (card e) = or_else (text_or_empty e.card_name) e.cardholder_name
entry_display_title (file e) = e.filename
entry_display_title (custom e) = e.title
entry_display_title (passkey e) = or_else e.rp_id (or_else e.user_name e.meta.id)

unfoldable pub merge_login : LoginEntry → LoginEntry → Merging LoginEntry
unfolding pick_str pick_opt merge_custom merge_attachments
merge_login l i = do
  new_password ← pick_str "password" l.password i.password
  new_title ← pick_str "title" l.title i.title
  new_url ← pick_str "url" l.url i.url
  new_username ← pick_str "username" l.username i.username
  new_notes ← pick_opt "notes" l.notes i.notes
  customs ← merge_custom l.custom_fields i.custom_fields
  files ← merge_attachments l.attachments i.attachments
  new_app_id ← pick_opt "app_id" l.app_id i.app_id
  new_email ← pick_opt "email" l.email i.email
  return (record {
    meta = l.meta;
    title = new_title;
    url = new_url;
    username = new_username;
    password = new_password;
    notes = new_notes;
    custom_fields = customs;
    attachments = files;
    app_id = new_app_id;
    email = new_email;
  })

unfoldable pub merge_note : NoteEntry → NoteEntry → Merging NoteEntry
unfolding pick_str merge_custom merge_attachments
merge_note l i = do
  new_title ← pick_str "title" l.title i.title
  new_content ← pick_str "content" l.content i.content
  customs ← merge_custom l.custom_fields i.custom_fields
  files ← merge_attachments l.attachments i.attachments
  return (record {
    meta = l.meta;
    title = new_title;
    content = new_content;
    custom_fields = customs;
    attachments = files;
  })

unfoldable pub merge_identity : IdentityEntry → IdentityEntry → Merging IdentityEntry
unfolding pick_str pick_opt merge_custom merge_attachments
merge_identity l i = do
  new_first_name ← pick_str "first_name" l.first_name i.first_name
  new_last_name ← pick_str "last_name" l.last_name i.last_name
  new_email ← pick_str "email" l.email i.email
  new_phone ← pick_opt "phone" l.phone i.phone
  new_address ← pick_opt "address" l.address i.address
  customs ← merge_custom l.custom_fields i.custom_fields
  files ← merge_attachments l.attachments i.attachments
  return (record {
    meta = l.meta;
    first_name = new_first_name;
    last_name = new_last_name;
    email = new_email;
    phone = new_phone;
    address = new_address;
    custom_fields = customs;
    attachments = files;
  })

unfoldable pub merge_card : CardEntry → CardEntry → Merging CardEntry
unfolding pick_str pick_opt merge_custom merge_attachments
merge_card l i = do
  new_cvv ← pick_str "cvv" l.cvv i.cvv
  new_pin ← pick_opt "pin" l.pin i.pin
  new_card_name ← pick_opt "card_name" l.card_name i.card_name
  new_status ← pick_str "status" l.status i.status
  holder ← pick_str "cardholder_name" l.cardholder_name i.cardholder_name
  new_number ← pick_str "card_number" l.card_number i.card_number
  new_expiry ← pick_str "expiry" l.expiry i.expiry
  limit ← pick_opt "credit_limit" l.credit_limit i.credit_limit
  account ← pick_opt "card_account_number" l.card_account_number i.card_account_number
  network ← pick_opt "payment_network" l.payment_network i.payment_network
  bank ← pick_opt "bank_name" l.bank_name i.bank_name
  transaction ← pick_opt "transaction_password" l.transaction_password i.transaction_password
  new_notes ← pick_opt "notes" l.notes i.notes
  customs ← merge_custom l.custom_fields i.custom_fields
  files ← merge_attachments l.attachments i.attachments
  return (record {
    meta = l.meta;
    card_name = new_card_name;
    status = new_status;
    cardholder_name = holder;
    card_number = new_number;
    expiry = new_expiry;
    cvv = new_cvv;
    credit_limit = limit;
    card_account_number = account;
    payment_network = network;
    pin = new_pin;
    bank_name = bank;
    transaction_password = transaction;
    notes = new_notes;
    custom_fields = customs;
    attachments = files;
  })

unfoldable pub merge_file : (Bytes → String) → FileEntry → FileEntry → Merging FileEntry
unfolding decide pick_str pick_opt merge_custom
merge_file b64 l i = do
  side ← decide "data" (bytes_eq l.content i.content) (b64 l.content) (b64 i.content)
  new_filename ← pick_str "filename" l.filename i.filename
  new_notes ← pick_opt "notes" l.notes i.notes
  customs ← merge_custom l.custom_fields i.custom_fields
  return (record {
    meta = l.meta;
    filename = new_filename;
    content = chosen side l.content i.content;
    notes = new_notes;
    custom_fields = customs;
  })

unfoldable pub merge_custom_entry : CustomEntry → CustomEntry → Merging CustomEntry
unfolding pick_str merge_fields merge_attachments
merge_custom_entry l i = do
  new_fields ← merge_fields l.fields i.fields
  new_title ← pick_str "title" l.title i.title
  files ← merge_attachments l.attachments i.attachments
  return (record { meta = l.meta; title = new_title; fields = new_fields; attachments = files })

-- The key material is one field: the side that wins it supplies every byte.
unfoldable pub merge_passkey : (Bytes → String) → PasskeyEntry → PasskeyEntry → Merging PasskeyEntry
unfolding decide pick_str pick_opt merge_custom credential_blob
merge_passkey b64 l i = do
  side ←
      decide "credential" (bytes_eq (credential_blob l) (credential_blob i))
        (b64 (credential_blob l)) (b64 (credential_blob i))
  new_rp_id ← pick_str "rp_id" l.rp_id i.rp_id
  new_user_name ← pick_str "user_name" l.user_name i.user_name
  new_display_name ← pick_str "user_display_name" l.user_display_name i.user_display_name
  new_notes ← pick_opt "notes" l.notes i.notes
  customs ← merge_custom l.custom_fields i.custom_fields
  return (record {
    meta = l.meta;
    rp_id = new_rp_id;
    user_name = new_user_name;
    user_display_name = new_display_name;
    user_handle = (chosen side l i).user_handle;
    credential_id = (chosen side l i).credential_id;
    private_key = (chosen side l i).private_key;
    public_key_cose = (chosen side l i).public_key_cose;
    algorithm = (chosen side l i).algorithm;
    notes = new_notes;
    custom_fields = customs;
  })

-- Two entries of one kind; `none` for two of different kinds.
unfoldable pub merge_kinds :
    (Bytes → String) → VaultEntry → VaultEntry → Option (Merging VaultEntry)
merge_kinds b64 (login l) (login i) = some (merge_login l i >>= λ e. return (login e))
merge_kinds b64 (note l) (note i) = some (merge_note l i >>= λ e. return (note e))
merge_kinds b64 (identity l) (identity i) = some (merge_identity l i >>= λ e. return (identity e))
merge_kinds b64 (card l) (card i) = some (merge_card l i >>= λ e. return (card e))
merge_kinds b64 (file l) (file i) = some (merge_file b64 l i >>= λ e. return (file e))
merge_kinds b64 (custom l) (custom i) = some (merge_custom_entry l i >>= λ e. return (custom e))
merge_kinds b64 (passkey l) (passkey i) = some (merge_passkey b64 l i >>= λ e. return (passkey e))
merge_kinds b64 l i = none

-- The merged entry, the clashes, the deletions to confirm, and the values brought over.
pub record MergedPair : Type 0 where
  pub entry : VaultEntry
  pub conflicts : List FieldConflictItem
  pub pending : List PendingItemDeleteItem
  pub brought_over : List BroughtOverItem

abbrev pub merged_pair : VaultEntry × FieldMerger → MergedPair
merged_pair (e, m) = record {
  entry = with_meta (finish_meta m) e;
  conflicts = m.conflicts;
  pending = m.pending;
  brought_over = m.brought_over;
}

abbrev pub whole : VaultEntry → MergedPair
whole e = record { entry = e; conflicts = []; pending = []; brought_over = [] }

-- Two versions of different kinds: the later one as a whole.
abbrev pub finish_pair : VaultEntry → VaultEntry → Option (Merging VaultEntry) → MergedPair
finish_pair l i (some merging) =
    merged_pair (merging (new_merger (meta_of l) (meta_of i) (entry_display_title l)))
finish_pair l i none = whole (if after (meta_of i).updated_at (meta_of l).updated_at then i else l)

unfoldable pub merge_entry_pair : (Bytes → String) → VaultEntry → VaultEntry → MergedPair
merge_entry_pair b64 l i = finish_pair l i (merge_kinds b64 l i)

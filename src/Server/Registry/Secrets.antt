-- ===== src/Server/Registry/Secrets.antt =====
-- Secrets of tests/fake_matterbeam/server.py, submitted and decrypted.
use Prim.Native.Char.{code}
use Prim.Native.String.{◌++◌ as str_append}
use text.Mathlib.TextLemmas.{cons-append, nil-append}
use dlt_matterbeam.Prelude.{
  String, ◌≡◌, refl, ap, sym, ◌∙◌, true, Option, none, some, [], ◌∷◌, Dict, lookup, insert,
  lookup-insert, arith, ◌==◌, eq_refl, nat_beq, if◌then◌else◌, Option-cases, Bool-cases, inl, inr,
}
use dlt_matterbeam.Server.{Server, Item, done, fault, malformed}
use dlt_matterbeam.Server.Lock.{set_item}
use dlt_matterbeam.Server.Registry.{
  strip_prefix, decrypted, decrypt_secret, encrypt_all, submit_secrets,
}

-- the value that a dict of submitted secrets leaves for a name
abbrev pub last_value : String → Dict String → Option String
last_value k [] = none
last_value k ((j, v) ∷ d) = elim (last_value k d) [
  | none ↦ if j == k then some v else none
  | some w ↦ some w
]

pub strip_prefix-append : (p s : String) → strip_prefix p (str_append p s) ≡ some s
strip_prefix-append String.[] s = ap some (nil-append s)
strip_prefix-append (String.◌∷◌ c p) s =
    let same : nat_beq (code c) (code c) ≡ true = ground arith in
    rw (cons-append c p s, same) (strip_prefix-append p s)

abbrev encrypted : Option String → Option String → Option String
encrypted none before = before
encrypted (some v) before = some (str_append "encrypted:" v)

lookup-encrypt_all :
    (k : String) (secrets d : Dict String)
    → lookup k (encrypt_all secrets d) ≡ encrypted (last_value k secrets) (lookup k d)
lookup-encrypt_all k [] d = refl
lookup-encrypt_all k ((j, v) ∷ secrets) d =
    lookup-encrypt_all k secrets (insert j (str_append "encrypted:" v) d)
    ∙ elim (Option-cases (last_value k secrets)) [
      | inl none_later ↦
          rw (none_later, lookup-insert j k (str_append "encrypted:" v) d)
            (elim (Bool-cases (j == k)) [ inl own ↦ rw (own) refl | inr other ↦ rw (other) refl ])
      | inr (w, later) ↦ rw (later) refl
    ]

decrypted-encrypted :
    (o before : Option String)
    → decrypted (encrypted o before) ≡ elim o [ none ↦ decrypted before | some v ↦ done (some v) ]
decrypted-encrypted none before = refl
decrypted-encrypted (some v) before =
    ap (λ o. elim o [ none ↦ fault malformed | some value ↦ done (some value) ])
      (strip_prefix-append "encrypted:" v)

decrypt_secret-there :
    (pid name : String) (item : Item) (s : Server)
    → s.pids pid ≡ some item
    → decrypt_secret pid name s ≡ decrypted (lookup name item.secret)
unfolding decrypt_secret
decrypt_secret-there pid name item s there = rw (decrypt_secret, there) refl

-- what a submission stored is what is decrypted
pub decrypt_secret-encrypt_all :
    (pid name : String) (secrets : Dict String) (item item' : Item) (s s' : Server)
    → s.pids pid ≡ some item
    → s'.pids pid ≡ some item'
    → item'.secret ≡ encrypt_all secrets item.secret
    → decrypt_secret pid name s'
      ≡ elim (last_value name secrets) [ none ↦ decrypt_secret pid name s | some v ↦ done (some v) ]
decrypt_secret-encrypt_all pid name secrets item item' s s' there there' same =
    let before = decrypt_secret-there pid name item s there in
    decrypt_secret-there pid name item' s' there'
    ∙ ap (λ d. decrypted (lookup name d)) same
    ∙ ap decrypted (lookup-encrypt_all name secrets item.secret)
    ∙ decrypted-encrypted (last_value name secrets) (lookup name item.secret)
    ∙ ap (λ o. elim (last_value name secrets) [ none ↦ o | some v ↦ done (some v) ]) (sym before)

pub submit_secrets-there :
    (pid : String) (secrets : Dict String) (item : Item) (s : Server)
    → s.pids pid ≡ some item
    → submit_secrets pid secrets s
      ≡ (done tt, set_item pid (record item { secret = encrypt_all secrets item.secret }) s)
unfolding submit_secrets
submit_secrets-there pid secrets item s there = rw (submit_secrets, there) refl

-- What is submitted to a process that is there can be decrypted: each name has the last value
-- submitted for it, and a name that was not submitted is as it was before.
pub decrypt_secret-submit_secrets :
    (pid name : String) (secrets : Dict String) (item : Item) (s : Server)
    → s.pids pid ≡ some item
    → let x = submit_secrets pid secrets s in
      (x.0 ≡ done tt)
      × (decrypt_secret pid name x.1 ≡ elim (last_value name secrets) [
        | none ↦ decrypt_secret pid name s
        | some v ↦ done (some v)
      ])
decrypt_secret-submit_secrets pid name secrets item s there =
    let item' : Item = record item { secret = encrypt_all secrets item.secret } in
    let s' = set_item pid item' s in
    let at = submit_secrets-there pid secrets item s there in
    let own : s'.pids pid ≡ some item' = rw (eq_refl pid) refl in
    (
      ap (λ x. x.0) at,
      ap (λ x. decrypt_secret pid name x.1) at
          ∙ decrypt_secret-encrypt_all pid name secrets item item' s s' there own refl,
    )

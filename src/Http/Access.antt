-- ===== src/Http/Access.antt =====
-- What a key gives access to, in a configuration whose credentials are valid.
use asl3_api.Prelude.{
  String, false, Option, none, some, List, [], ◌∷◌, any, is_empty, str_eq, eq_iff, ◌≡◌, refl, sym,
  ap, ◌∙◌, subst, inl, inr, arith, Bool-cases,
}
use asl3_api.Errors.{problem, err, ◌>>=◌}
use asl3_api.Config.{Value, null, str, seq, dict, Items, nil, cons, Entries, end, entry, get_entry}
use asl3_api.Config
use asl3_api.Config.Credentials.{
  credential, credential_errors, AreDistinct, one_more, credential_errors_nil,
}
use asl3_api.Http.Auth.{
  legacy_entry, credentials, credentials_or, find_entry, Authority, try_credentials, items_of,
  authenticate,
}
use asl3_api.Http.Accounts.{is_nil, Has, IsAccount, account, verdict, try_account}

is_dict : (v : Value) {n k : String} → credential v ≡ some (n, k) → (d : Entries) × (v ≡ dict d)
unfolding credential
is_dict (dict d) e = (d, refl)
is_dict _ e = absurd (ground arith)

-- The keys of later entries are not among the keys that came before.
fresh_key :
    (items : Items) (names keys : List String) (v : Value) {n k : String}
    → AreDistinct items names keys
    → Has v items
    → credential v ≡ some (n, k)
    → any (str_eq k) keys ≡ false
fresh_key nil names keys v a h e = absurd h
fresh_key (cons w ws) names keys v {n} {k} (one_more _ _ _ _ name key good new_name new_key rest) h
      e =
    elim h [
      | inl same ↦
          let pair : some (n, k) ≡ some (name, key) = sym e ∙ ap credential same ∙ good in
          let key_same : k ≡ key = ground (arith, pair) in rw key_same new_key
      | inr later ↦ ground (arith, fresh_key ws (name ∷ names) (key ∷ keys) v rest later e)
    ]

-- The key of an account finds the account, wherever it stands in the list.
try_known :
    (authority : Authority) (items : Items) (names keys : List String) (d : Entries)
    {name key : String} (a : IsAccount d name key)
    → AreDistinct items names keys
    → Has (dict d) items
    → credential (dict d) ≡ some (name, key)
    → try_credentials key authority items ≡ verdict authority name a.scopes
unfolding try_credentials
try_known authority nil names keys d a u h e = absurd h
try_known authority (cons w ws) names keys d {name} {key} a
      (one_more _ _ _ _ name' key' good new_name new_key rest) h e =
    elim h [
      | inl same ↦
          rw
            (
              ← same,
              try_account key authority d (try_credentials key authority ws) a,
              (eq_iff key key).1 refl,
            )
            refl
      | inr later ↦
          let (d', is) = is_dict w good in
          let other : str_eq key key' ≡ false =
            ground (arith, fresh_key ws (name' ∷ names) (key' ∷ keys) (dict d) rest later e) in
          rw
            (
              is,
              try_account key authority d' (try_credentials key authority ws)
                  (account d' (ap credential (sym is) ∙ good)),
              other,
            )
            (try_known authority ws (name' ∷ names) (key' ∷ keys) d a rest later e)
    ]

seq_inj : {vs ws : Items} → seq vs ≡ seq ws → vs ≡ ws
seq_inj {vs} e = ap items e
  where
    items : Value → Items
    items (seq xs) = xs
    items _ = vs

some_items_inj : {vs ws : Items} → some (seq vs) ≡ some (seq ws) → vs ≡ ws
some_items_inj {vs} e = ap items e
  where
    items : Option Value → Items
    items (some (seq xs)) = xs
    items _ = vs

distinct :
    (config : Value) (entries : Items)
    → credential_errors config ≡ []
    → Config.get config "api.credentials" (seq nil) ≡ seq entries
    → AreDistinct entries [] []
distinct config entries valid listed =
    let (found, same, u) = credential_errors_nil config valid in
    subst (λ vs. AreDistinct vs [] []) (sym (seq_inj (sym listed ∙ same))) u

-- The keys of the entries.
abbrev pub keys_of : Items → List String
keys_of nil = []
keys_of (cons v vs) = key_then (credential v) (keys_of vs)
  where
    key_then : Option (String × String) → List String → List String
    key_then none ks = ks
    key_then (some (name, key)) ks = key ∷ ks

try_unknown :
    (key : String) (authority : Authority) (items : Items) (names keys : List String)
    → AreDistinct items names keys
    → any (str_eq key) (keys_of items) ≡ false
    → try_credentials key authority items ≡ err (problem 401 "AUTHENTICATION_REQUIRED")
unfolding try_credentials
try_unknown key authority nil names keys u h = refl
try_unknown key authority (cons w ws) names keys
      (one_more _ _ _ _ name' key' good new_name new_key rest) h =
    let (d, is) = is_dict w good in
    let other : str_eq key key' ≡ false = ground (arith, good) in
    rw
      (
        is,
        try_account key authority d (try_credentials key authority ws)
            (account d (ap credential (sym is) ∙ good)),
        other,
      )
      (try_unknown key authority ws (name' ∷ names) (key' ∷ keys) rest (ground (arith, good)))

module _ (config : Value) (entries : Items) (valid : credential_errors config ≡ [])
    (listed : Config.get config "api.credentials" (seq nil) ≡ seq entries) where
  -- With credentials that `validate` accepts, the key of an entry of the list is granted what the
  -- entry's own authority says: its name, if the authority has what is asked or is control, and
  -- otherwise the problem 403. The other entries and their order make no difference.
  pub authenticate_known :
      (authority : Authority) (d : Entries) (name key : String) (scopes : Items)
      → Has (dict d) entries
      → credential (dict d) ≡ some (name, key)
      → find_entry d "authority" ≡ some (seq scopes)
      → authenticate config (some key) authority ≡ verdict authority name scopes
  unfolding authenticate credentials credentials_or items_of
  authenticate_known authority d name key scopes h e granted =
      let a = account d e in
      let same : a.scopes ≡ scopes = some_items_inj (sym a.authority_is ∙ granted) in
      rw (a.key_filled, listed)
        (at_list entries h (
          try_known authority entries [] [] d a (distinct config entries valid listed) h e
          ∙ ap (verdict authority name) same))
    where
      at_list :
          (vs : Items)
          → Has (dict d) vs
          → try_credentials key authority vs ≡ verdict authority name scopes
          → (items_of (credentials_or (seq vs) (legacy_entry config))
              >>= try_credentials key authority)
            ≡ verdict authority name scopes
      at_list nil g t = absurd g
      at_list (cons v vs) g t = t

  -- With a list of such credentials that is not empty, a key that no entry has is refused with the
  -- problem 401, whatever is asked.
  pub authenticate_unknown :
      (authority : Authority) (key : String)
      → is_nil entries ≡ false
      → any (str_eq key) (keys_of entries) ≡ false
      → authenticate config (some key) authority ≡ err (problem 401 "AUTHENTICATION_REQUIRED")
  unfolding authenticate credentials credentials_or items_of
  authenticate_unknown authority key filled unknown = elim (Bool-cases (is_empty key)) [
    | inl empty ↦ rw empty refl
    | inr some_key ↦
        rw (some_key, listed)
          (at_list entries filled (
            try_unknown key authority entries [] [] (distinct config entries valid listed) unknown))
  ]
    where
      at_list :
          (vs : Items)
          → is_nil vs ≡ false
          → try_credentials key authority vs ≡ err (problem 401 "AUTHENTICATION_REQUIRED")
          → (items_of (credentials_or (seq vs) (legacy_entry config))
              >>= try_credentials key authority)
            ≡ err (problem 401 "AUTHENTICATION_REQUIRED")
      at_list nil g t = absurd (ground arith)
      at_list (cons v vs) g t = t

-- ===== src/Devices/Token/Laws.antt =====
-- Reading back a Proxmox token that the forms put together (web/src/pages/DevicesView.tsx).
use ophanim.Base.{
  ◌≡◌, refl, sym, ap, ◌∙◌, ◌≢◌, true, false, not, ◌&&◌, some, [], ◌∷◌, ◌++◌, Text, codes, trim,
  is_space, has_unit, starts_with, split_on, split_on-absent, split_on-append, arith, append_assoc,
}
use ophanim.Devices.Token.{
  Credentials, piece_0, piece_1, read_header, strip_prefix, root, pam, ophanim_id, read_parts,
  read_full, read_token, compose_token,
}
use ophanim.Devices.Token.Texts.{
  is_solid, all-append, trim-solid, has_unit-append, starts_with-apart, or_text-name,
}

-- A field that names something: some text without white space and separators.
pub record IsName (s : Text) : Type 0 where
  pub some_text : s ≢ []
  pub solid : is_solid s ≡ true
  pub no_at : has_unit s b'@' ≡ false
  pub no_bang : has_unit s b'!' ≡ false
  pub no_equals : has_unit s b'=' ≡ false

-- The token of four fields, as it is written.
abbrev written : Credentials → Text
written c = c.user ++ (b'@' ∷ c.realm ++ (b'!' ∷ c.token_id ++ (b'=' ∷ c.secret)))

-- Three names and a secret without white space that is not a whole token itself.
pub record IsWritable (c : Credentials) : Type 0 where
  pub user_name : IsName c.user
  pub realm_name : IsName c.realm
  pub token_name : IsName c.token_id
  pub secret_solid : is_solid c.secret ≡ true
  pub secret_no_at : has_unit c.secret b'@' ≡ false

module _ (c : Credentials) (w : IsWritable c) where
  compose_token-written : compose_token c ≡ written c
  unfolding compose_token
  compose_token-written = rw (
    trim-solid c.secret w.secret_solid,
    w.secret_no_at,
    trim-solid c.user w.user_name.solid,
    trim-solid c.realm w.realm_name.solid,
    trim-solid c.token_id w.token_name.solid,
    or_text-name c.user root w.user_name.some_text,
    or_text-name c.realm pam w.realm_name.some_text,
    or_text-name c.token_id ophanim_id w.token_name.some_text,
  )

  written-solid : is_solid (written c) ≡ true
  unfolding is_space
  written-solid = ground (
    arith,
    all-append (λ a. not (is_space a)) c.user
        (b'@' ∷ c.realm ++ (b'!' ∷ c.token_id ++ (b'=' ∷ c.secret))),
    all-append (λ a. not (is_space a)) c.realm (b'!' ∷ c.token_id ++ (b'=' ∷ c.secret)),
    all-append (λ a. not (is_space a)) c.token_id (b'=' ∷ c.secret),
    w.user_name.solid,
    w.realm_name.solid,
    w.token_name.solid,
    w.secret_solid,
  )

  header : Text
  header = c.user ++ (b'@' ∷ c.realm ++ (b'!' ∷ c.token_id))

  written-split : written c ≡ header ++ (b'=' ∷ c.secret)
  unfolding header
  written-split = simp append_assoc

  header-no_equals : has_unit header b'=' ≡ false
  unfolding header
  header-no_equals =
      rw
        (has_unit-append c.user (b'@' ∷ c.realm ++ (b'!' ∷ c.token_id)) b'=', w.user_name.no_equals)
        (behind_user)
    where
      behind_user : has_unit (b'@' ∷ c.realm ++ (b'!' ∷ c.token_id)) b'=' ≡ false
      behind_user =
          unfold has_unit in
          ground (
            arith,
            has_unit-append c.realm (b'!' ∷ c.token_id) b'=',
            w.realm_name.no_equals,
            w.token_name.no_equals,
          )

  split_equals : split_on b'=' (written c) ≡ header ∷ split_on b'=' c.secret
  split_equals = rw written-split (split_on-append b'=' header c.secret header-no_equals)

  rest_part : Text
  rest_part = c.realm ++ (b'!' ∷ c.token_id)

  rest-no_at : has_unit rest_part b'@' ≡ false
  unfolding rest_part has_unit
  rest-no_at = ground (
    arith,
    has_unit-append c.realm (b'!' ∷ c.token_id) b'@',
    w.realm_name.no_at,
    w.token_name.no_at,
  )

  split_at : split_on b'@' header ≡ c.user ∷ rest_part ∷ []
  unfolding header rest_part
  split_at =
      split_on-append b'@' c.user (c.realm ++ (b'!' ∷ c.token_id)) w.user_name.no_at
      ∙ ap (λ l. c.user ∷ l) (unfold rest_part in split_on-absent b'@' rest_part rest-no_at)

  split_bang : split_on b'!' rest_part ≡ c.realm ∷ c.token_id ∷ []
  unfolding rest_part
  split_bang =
      split_on-append b'!' c.realm c.token_id w.realm_name.no_bang
      ∙ ap (λ l. c.realm ∷ l) (split_on-absent b'!' c.token_id w.token_name.no_bang)

  read_full-written :
      read_full (written c) ≡ some (record c { secret = piece_0 (split_on b'=' c.secret) })
  unfolding read_full piece_0 piece_1
  read_full-written =
      ap (λ ps. read_header (split_on b'@' (piece_0 ps)) (piece_1 ps)) split_equals
      ∙ (ap (λ ps. read_header ps (piece_0 (split_on b'=' c.secret))) split_at
          ∙ unfold read_header read_parts in
            rw (
              split_bang,
              or_text-name c.user root w.user_name.some_text,
              or_text-name c.realm pam w.realm_name.some_text,
              or_text-name c.token_id ophanim_id w.token_name.some_text,
            ))

  strip_prefix-written : strip_prefix (written c) ≡ written c
  unfolding strip_prefix has_unit
  strip_prefix-written = rw (
      starts_with-apart c.user (c.realm ++ (b'!' ∷ c.token_id ++ (b'=' ∷ c.secret)))
        (codes "PVEAPIToken") w.user_name.no_equals refl)

  has-separators :
      (has_unit (written c) b'=' && (has_unit (written c) b'@' && has_unit (written c) b'!')) ≡ true
  unfolding has_unit
  has-separators = ground (
    arith,
    has_unit-append c.user (b'@' ∷ c.realm ++ (b'!' ∷ c.token_id ++ (b'=' ∷ c.secret))) b'@',
    has_unit-append c.user (b'@' ∷ c.realm ++ (b'!' ∷ c.token_id ++ (b'=' ∷ c.secret))) b'!',
    has_unit-append c.user (b'@' ∷ c.realm ++ (b'!' ∷ c.token_id ++ (b'=' ∷ c.secret))) b'=',
    has_unit-append c.realm (b'!' ∷ c.token_id ++ (b'=' ∷ c.secret)) b'!',
    has_unit-append c.realm (b'!' ∷ c.token_id ++ (b'=' ∷ c.secret)) b'=',
    has_unit-append c.token_id (b'=' ∷ c.secret) b'=',
  )

-- A token that is put together from three names that are not empty and a secret is read back field
-- by field, but the secret only up to its first `=`, with or without the prefix that the Proxmox
-- API puts in front, if there is no white space in them, no `@`, `!` or `=` in the names and no `@`
-- in the secret.
pub read-compose_token :
    (c : Credentials)
    → IsWritable c
    → (read_token (compose_token c) ≡ some (record c { secret = piece_0 (split_on b'=' c.secret) }))
      × (read_token (codes "PVEAPIToken=" ++ compose_token c) ≡ read_token (compose_token c))
read-compose_token c w = rw (compose_token-written c w) (bare, prefixed ∙ sym bare)
  where
    solid : trim (written c) ≡ written c
    solid = trim-solid (written c) (written-solid c w)

    bare : read_token (written c) ≡ some (record c { secret = piece_0 (split_on b'=' c.secret) })
    bare =
        unfold read_token in
        rw (strip_prefix-written c w, solid, has-separators c w) (read_full-written c w)

    prefixed :
        read_token (codes "PVEAPIToken=" ++ written c)
        ≡ some (record c { secret = piece_0 (split_on b'=' c.secret) })
    prefixed =
        unfold read_token strip_prefix starts_with in
        rw (solid, has-separators c w) (read_full-written c w)

-- A secret without `=` comes back whole.
pub read-compose_token_whole :
    (c : Credentials)
    → IsWritable c
    → has_unit c.secret b'=' ≡ false
    → read_token (compose_token c) ≡ some c
unfolding piece_0
read-compose_token_whole c w no_equals =
    (read-compose_token c w).0 ∙ rw (split_on-absent b'=' c.secret no_equals) refl

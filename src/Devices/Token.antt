-- ===== src/Devices/Token.antt =====
-- The Proxmox API token: read into four fields, and put together from them
-- (web/src/pages/DevicesView.tsx, web/src/components/AddDeviceModal.tsx).
pub mod Texts
pub mod Laws
use ophanim.Base.{
  Bool, true, false, ◌&&◌, Option, List, [], ◌∷◌, ◌++◌, Text, codes, trim, starts_with, has_unit,
  drop, split_on, or_text, or_default, if◌then◌else◌,
}

-- The four fields of a form.
pub record Credentials : Type 0 where
  pub user : Text
  pub realm : Text
  pub token_id : Text
  pub secret : Text

-- The first two pieces of `s.split(d, 2)`; a second one that is missing is undefined in the source,
-- and stands as the empty text here, which `||` does not tell apart.
unfoldable pub piece_0 : List Text → Text
piece_0 [] = []
piece_0 (p ∷ ps) = p

unfoldable pub piece_1 : List Text → Text
unfolding piece_0
piece_1 [] = []
piece_1 (p ∷ ps) = piece_0 ps

-- `s.replace(/^PVEAPIToken=/, '')`
unfoldable pub strip_prefix : Text → Text
strip_prefix s = if starts_with s (codes "PVEAPIToken=") then drop 12 s else s

abbrev pub root : Text
root = codes "root"

abbrev pub pam : Text
pam = codes "pam"

abbrev pub ophanim_id : Text
ophanim_id = codes "ophanim"

-- The fields behind the `@`, split at the `!`.
unfoldable pub read_parts : Text → Text → Text → Credentials
unfolding piece_0 piece_1
read_parts user rest secret = record {
  user = or_text user root;
  realm = or_text (piece_0 (split_on b'!' rest)) pam;
  token_id = or_text (piece_1 (split_on b'!' rest)) ophanim_id;
  secret = secret;
}

-- The pieces of the part in front of the `=`, split at the `@`. When there is no `@`, `rest.split`
-- of undefined throws: `none`.
unfoldable pub read_header : List Text → Text → Option Credentials
unfolding read_parts
read_header [] secret = Option.none
read_header (u ∷ []) secret = Option.none
read_header (u ∷ rest ∷ others) secret = Option.some (read_parts u rest secret)

-- A token with all three separators.
unfoldable pub read_full : Text → Option Credentials
unfolding read_header piece_0 piece_1
read_full tok =
    read_header (split_on b'@' (piece_0 (split_on b'=' tok))) (piece_1 (split_on b'=' tok))

-- The credentials that `handleStartEdit` puts into the form; `none` when it throws.
unfoldable pub read_token : Text → Option Credentials
unfolding strip_prefix read_full
read_token enroll_token =
    let tok = trim (strip_prefix enroll_token) in
    if has_unit tok b'=' && (has_unit tok b'@' && has_unit tok b'!')
    then read_full tok
    else Option.some (record { user = root; realm = pam; token_id = ophanim_id; secret = tok })

-- The token of four fields: a secret that is a whole token already stands for itself.
unfoldable pub compose_token : Credentials → Text
compose_token c =
    if has_unit (trim c.secret) b'@' && has_unit (trim c.secret) b'!'
    then trim c.secret
    else or_text (trim c.user) root
      ++ (b'@' ∷ or_text (trim c.realm) pam
          ++ (b'!' ∷ or_text (trim c.token_id) ophanim_id ++ (b'=' ∷ trim c.secret)))

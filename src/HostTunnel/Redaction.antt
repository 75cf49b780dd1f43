-- ===== src/HostTunnel/Redaction.antt =====
-- `redactTunnelSecrets`: every occurrence of a secret is replaced. A text that is made is the list of
-- its characters.
use easy_mc_server.Prelude.{
  ℕ, zero, suc, ◌-◌, Bool, true, false, ◌&&◌, List, [], ◌∷◌, ◌++◌, Text, show, truthy, eqb, length,
  refl, ◌≡◌, str, undefined, if◌then◌else◌,
}
use easy_mc_server.Prelude.Chars.{codes, chars}

abbrev pub redaction_label : List ℕ
redaction_label = codes "[redacted:tunnel_secret]"

unfoldable pub begins_with : List ℕ → List ℕ → Bool
begins_with [] cs = true
begins_with (p ∷ ps) [] = false
begins_with (p ∷ ps) (c ∷ cs) = eqb p c && begins_with ps cs

-- `text.replaceAll(secret, label)`, for a secret that is not empty: the first argument counts the
-- characters of an occurrence that are still to be passed over.
unfoldable pub replace_from : ℕ → List ℕ → List ℕ → List ℕ
unfolding begins_with
replace_from skip secret [] = []
replace_from (suc skip) secret (c ∷ cs) = replace_from skip secret cs
replace_from zero secret (c ∷ cs) =
    let here = begins_with secret (c ∷ cs) in
    let rest = replace_from (if here then length secret - 1 else 0) secret cs in
    if here then redaction_label ++ rest else c ∷ rest

unfoldable pub replace_secret : Text → List ℕ → List ℕ
unfolding replace_from
replace_secret secret text = if truthy secret then replace_from 0 (chars secret) text else text

-- The secrets are the token of the host's tunnel and that of the relay.
unfoldable pub redact_tunnel_secrets : Text → Text → Text → List ℕ
unfolding replace_secret
redact_tunnel_secrets host_tunnel_token relay_token value =
    replace_secret relay_token (replace_secret host_tunnel_token (codes (show value)))

redacted_twice :
    redact_tunnel_secrets (str "abc") undefined (str "x=abc&abc")
    ≡ codes "x=[redacted:tunnel_secret]&[redacted:tunnel_secret]"
unfolding redact_tunnel_secrets truthy show
redacted_twice = refl

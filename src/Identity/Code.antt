-- ===== src/Identity/Code.antt =====
-- identity/errors.go: the error codes that the middleware writes, a contract between the SDKs.
use go_ai.Text.{Text, codes}

abbrev pub missing_token : Text
missing_token = codes "oauth.missing_token"

abbrev pub not_configured : Text
not_configured = codes "oauth.not_configured"

abbrev pub verifier_unavailable : Text
verifier_unavailable = codes "oauth.verifier_unavailable"

abbrev pub expired : Text
expired = codes "oauth.expired"

abbrev pub invalid_issuer : Text
invalid_issuer = codes "oauth.invalid_issuer"

abbrev pub invalid_audience : Text
invalid_audience = codes "oauth.invalid_audience"

abbrev pub invalid_signature : Text
invalid_signature = codes "oauth.invalid_signature"

abbrev pub decode_error : Text
decode_error = codes "oauth.decode_error"

abbrev pub invalid_token : Text
invalid_token = codes "oauth.invalid_token"

abbrev pub missing_scope : Text
missing_scope = codes "oauth.missing_scope"

-- ===== src/Examples/Web.antt =====
-- src/heads/web/app.ts on a post of a reader.
use pdn_whatspac_client.Base.{codes}
use pdn_whatspac_client.Js.Json.{Json, obj, str, field, end}

abbrev text_body : Json
text_body = obj (field (codes "text") (str (codes "hi")) end)

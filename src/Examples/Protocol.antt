-- ===== src/Examples/Protocol.antt =====
-- src/protocol on a keepalive message, compressed.
use pdn_whatspac_client.Base.{◌≡◌, refl, List, [], ◌∷◌, ◌++◌, Bytes, text_eq, arith}
use pdn_whatspac_client.Base.Chunks.{join}
use pdn_whatspac_client.Js.Json.{str, end, field, get, has_key}
use pdn_whatspac_client.Js.Json.Writer.{write, stringify}
use pdn_whatspac_client.Js.Base64.{bytes_to_base64, alphabet}
use pdn_whatspac_client.Js.Utf8.RoundTrip.{IsPrinted, nil, unit}
use pdn_whatspac_client.Protocol.Framing.{encode_payload}
use pdn_whatspac_client.Protocol.Codec.{ok, WpsMessage, encode_frame, push}
use pdn_whatspac_client.Protocol.Codec.RoundTrip.{
  read_all, read_all-join, read_all-stream, stream, IsMessage,
}
use pdn_whatspac_client.Examples.Compression.{toy, toy-IsZlib, known}

abbrev keepalive : WpsMessage
keepalive = field (116 ∷ []) (str (107 ∷ [])) end

abbrev chunks : List Bytes
chunks = (195 ∷ 65 ∷ []) ∷ (81 ∷ 61 ∷ 61 ∷ 195 ∷ 13 ∷ 65 ∷ []) ∷ []

known-IsPrinted : IsPrinted known
known-IsPrinted = unit (omega arith) (omega arith) refl (
    unit (omega arith) (omega arith) refl (
      unit (omega arith) (omega arith) refl (
        unit (omega arith) (omega arith) refl (
          unit (omega arith) (omega arith) refl (
            unit (omega arith) (omega arith) refl (
              unit (omega arith) (omega arith) refl (
                unit (omega arith) (omega arith) refl
                  (unit (omega arith) (omega arith) refl nil))))))))

keepalive-IsMessage : IsMessage keepalive
unfolding get has_key text_eq
keepalive-IsMessage = (((omega arith, tt), refl, (omega arith, tt), tt), refl)

one_frame : join chunks ≡ stream toy (keepalive ∷ []) ++ 65 ∷ []
unfolding stream encode_frame encode_payload stringify write toy bytes_to_base64 alphabet text_eq
one_frame = refl

read_all-stream_example : read_all toy [] chunks ≡ ok (keepalive ∷ [], 65 ∷ [])
read_all-stream_example =
    read_all-stream toy toy-IsZlib (keepalive ∷ []) (65 ∷ []) chunks (keepalive-IsMessage, tt)
      (refl, tt) one_frame

read_all-join_example : read_all toy [] chunks ≡ push toy [] (join chunks)
read_all-join_example = read_all-join toy chunks [] tt

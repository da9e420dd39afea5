-- ===== src/Js/Json/Writer.antt =====
-- `JSON.stringify`, with no spaces.
use pdn_whatspac_client.Base.{true, false, [], ◌∷◌, ◌++◌, Text, codes}
use pdn_whatspac_client.Js.Json.{
  Json, null, bool, num, str, arr, obj, Items, nil, cons, Fields, end, field,
}
use pdn_whatspac_client.Js.Json.Strings.{escape}
use pdn_whatspac_client.Js.Json.Numbers.{write_num}

-- A text in quotes, in front of `k`.
unfoldable pub quoted : Text → Text → Text
unfolding escape
quoted s k = 34 ∷ escape s (34 ∷ k)

-- Each function writes in front of `k`.
unfoldable mutual
  unfolding quoted write_num

  pub write : Json → Text → Text
  write null k = codes "null" ++ k
  write (bool true) k = codes "true" ++ k
  write (bool false) k = codes "false" ++ k
  write (num negative whole fraction) k = write_num negative whole fraction k
  write (str s) k = quoted s k
  write (arr xs) k = b'[' ∷ write_items xs (b']' ∷ k)
  write (obj fs) k = b'{' ∷ write_fields fs (b'}' ∷ k)

  pub write_items : Items → Text → Text
  write_items nil k = k
  write_items (cons x nil) k = write x k
  write_items (cons x (cons y ys)) k = write x (b',' ∷ write_items (cons y ys) k)

  pub write_fields : Fields → Text → Text
  write_fields end k = k
  write_fields (field key v end) k = quoted key (b':' ∷ write v k)
  write_fields (field key v (field key' w fs)) k =
      quoted key (b':' ∷ write v (b',' ∷ write_fields (field key' w fs) k))

unfoldable pub stringify : Json → Text
unfolding write
stringify v = write v []

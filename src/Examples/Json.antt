-- ===== src/Examples/Json.antt =====
-- JSON text as the parser reads it.
use pdn_whatspac_client.Base.{◌≡◌, refl, true, false, some, [], ◌∷◌, codes}
use pdn_whatspac_client.Js.Json.{bool, num, str, arr, obj, nil, cons, end, field}
use pdn_whatspac_client.Js.Json.Parser.{parse}

parse_sample :
    parse (codes "{\"t\":\"m\", \"a\":[1,-2.50,3e2,true] , \"t\":\"x\\u0041\\n\"}")
    ≡ some (
        obj (
          field (codes "t") (str (codes "xA\n")) (
            field
              (codes "a")
              (arr (
                cons
                  (num false 1 [])
                  (cons (num true 2 (5 ∷ [])) (cons (num false 300 []) (cons (bool true) nil)))))
              end)))
unfolding parse
parse_sample = refl

-- ===== src/Examples/Heads.antt =====
-- src/heads/rf/server.ts and src/util/emitter.ts on short inputs.
use pdn_whatspac_client.Base.{◌≡◌, refl, false, [], ◌∷◌, Text, text_eq, arith}
use pdn_whatspac_client.Base.Splits.{split}
use pdn_whatspac_client.Rf.Server.{pull_lines}
use pdn_whatspac_client.Rf.Server.Lines.{pull_lines-split}
use pdn_whatspac_client.Store.Rows.{upsert, find}
use pdn_whatspac_client.Util.Emitter.{emit, on, has}

-- `k\n\nM\r\nx`, and the `k` alone before it.
abbrev lines : Text
lines = 10 ∷ 10 ∷ 77 ∷ 13 ∷ 10 ∷ 120 ∷ []

pull_lines-split_example : pull_lines 6 lines ≡ split 10 [] lines
pull_lines-split_example = pull_lines-split 6 lines (omega arith)

not_there : has 2 (emit (112 ∷ []) (on (112 ∷ []) 1 [])) ≡ false
unfolding has emit on upsert find text_eq
not_there = refl

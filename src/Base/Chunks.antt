-- ===== src/Base/Chunks.antt =====
-- A splitter takes a byte stream chunk by chunk, gives out what each chunk completes, and keeps
-- the rest. Under two laws its output does not depend on where the stream was cut.
use mathlib.Core.Path.{◌≡◌, sym}
use mathlib.Core.List.{List, [], ◌∷◌, ◌++◌}

abbrev pub Splitter {ℓ} : Type ℓ → Type ℓ → Type ℓ
Splitter A O = List A → List A → List O × List A

module _ {ℓ} {A : Type ℓ} where
  abbrev pub join : List (List A) → List A
  join [] = []
  join (c ∷ cs) = c ++ join cs

  abbrev pub Every {κ} : (List A → Type κ) → List (List A) → Type κ
  Every P [] = Unit
  Every P (c ∷ cs) = P c × Every P cs

module _ {ℓ} {A O : Type ℓ} where
  -- The outputs in order, and what is kept at the end.
  abbrev pub feed : Splitter A O → List A → List (List A) → List O × List A
  feed push buf [] = ([], buf)
  feed push buf (c ∷ cs) =
      let (out, buf') = push buf c in let (more, last) = feed push buf' cs in (out ++ more, last)

  -- The laws, on buffers with `Kept` and chunks with `Fine`.
  pub record IsSplitter {κ} (push : Splitter A O) (Kept Fine : List A → Type κ) : Type (ℓ ⊔ κ) where
    pub nothing : (buf : List A) → Kept buf → push buf [] ≡ ([], buf)
    pub keeps : (buf c : List A) → Kept buf → Fine c → Kept (push buf c).1
    pub cut :
        (buf c d : List A)
        → Kept buf
        → Fine c
        → Fine d
        → push buf (c ++ d)
          ≡ ((push buf c).0 ++ (push (push buf c).1 d).0, (push (push buf c).1 d).1)

  module _ {κ} {push : Splitter A O} {Kept Fine : List A → Type κ}
      (laws : IsSplitter push Kept Fine)
      (join-Fine : (cs : List (List A)) → Every Fine cs → Fine (join cs)) where
    pub feed-join :
        (cs : List (List A)) (buf : List A)
        → Kept buf
        → Every Fine cs
        → feed push buf cs ≡ push buf (join cs)
    feed-join [] buf k f = sym (laws.nothing buf k)
    feed-join (c ∷ cs) buf k f =
        rw (feed-join cs (push buf c).1 (laws.keeps buf c k f.0) f.1)
          (sym (laws.cut buf c (join cs) k f.0 (join-Fine cs f.1)))

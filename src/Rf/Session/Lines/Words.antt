-- ===== src/Rf/Session/Lines/Words.antt =====
-- The words of the commands of src/heads/rf/session.ts, and the lines that are read as them.
use pdn_whatspac_client.Base.{
  ◌+◌, ◌≡◌, ◌≢◌, ◌⊎◌, inl, inr, refl, sym, ap, subst, ◌∙◌, true, false, some, List, [], ◌∷◌, ◌++◌,
  Text, All, codes, text_eq, drop, starts_with, index_of, length, take-append_self,
  drop-append_self, drop-drop, append-nil, arith,
}
use pdn_whatspac_client.Base.Units.{index_of-NotIn, index_of-behind}
use pdn_whatspac_client.Base.Splits.{NotIn}
use pdn_whatspac_client.Js.Trim.{
  trim, is_space, IsSpace, trim-around, IsTrimmed, trim_self, IsWord, IsTrimmed-word,
  IsTrimmed-line, trim_end-behind,
}
use pdn_whatspac_client.Js.Case.{Unicode, to_upper_case}
use pdn_whatspac_client.Rf.Session.{
  Command, help, menu_, channels, who, conversations, quit, open_, post, talk, send, subscribe,
  unknown,
}
use pdn_whatspac_client.Rf.Session.Lines.{
  cut_at, words, command_of, command_in, command_on, read_command,
}

-- The words that stand for a command.
abbrev pub names : Command → List Text
names help = codes "H" ∷ codes "?" ∷ codes "HELP" ∷ []
names menu_ = codes "M" ∷ codes "MENU" ∷ []
names channels = codes "CH" ∷ codes "C" ∷ []
names (open_ arg) = codes "O" ∷ codes "OPEN" ∷ []
names (post text) = codes "P" ∷ codes "POST" ∷ []
names (subscribe true) = codes "SUB" ∷ []
names (subscribe false) = codes "UNSUB" ∷ []
names who = codes "WHO" ∷ codes "W" ∷ []
names conversations = codes "DM" ∷ codes "D" ∷ []
names (talk peer) = codes "T" ∷ codes "TALK" ∷ []
names (send text) = codes "S" ∷ codes "SEND" ∷ []
names quit = codes "Q" ∷ codes "QUIT" ∷ codes "BYE" ∷ []
names (unknown verb) = []

-- The text reads as the argument of a command; a command without an argument takes any.
abbrev pub Takes : Unicode → Command → Text → Type 0
Takes u (open_ arg) rest = rest ≡ arg
Takes u (post text) rest = rest ≡ text
Takes u (talk peer) rest = to_upper_case u rest ≡ peer
Takes u (send text) rest = rest ≡ text
Takes u _ rest = Unit {0}

abbrev pub OneOf : Text → List Text → Type 0
OneOf w [] = ⊥
OneOf w (v ∷ vs) = (w ≡ v) ⊎ OneOf w vs

module _ (P : Text → Type 0) where
  at-name : (w : Text) (vs : List Text) → OneOf w vs → All P vs → P w
  at-name w [] (h) a = elim h [ ]
  at-name w (v ∷ vs) (inl e) a = subst P (sym e) a.0
  at-name w (v ∷ vs) (inr h) a = at-name w vs h a.1

command_of-each :
    (u : Unicode) (c : Command) (rest : Text)
    → Takes u c rest
    → All (λ v. command_of u v rest ≡ c) (names c)
unfolding command_of text_eq
command_of-each u help rest t = (refl, (refl, (refl, tt)))
command_of-each u menu_ rest t = (refl, (refl, tt))
command_of-each u channels rest t = (refl, (refl, tt))
command_of-each u (open_ a) rest t = (ap open_ t, (ap open_ t, tt))
command_of-each u (post a) rest t = (ap post t, (ap post t, tt))
command_of-each u (subscribe true) rest t = (refl, tt)
command_of-each u (subscribe false) rest t = (refl, tt)
command_of-each u who rest t = (refl, (refl, tt))
command_of-each u conversations rest t = (refl, (refl, tt))
command_of-each u (talk a) rest t = (ap talk t, (ap talk t, tt))
command_of-each u (send a) rest t = (ap send t, (ap send t, tt))
command_of-each u quit rest t = (refl, (refl, (refl, tt)))
command_of-each u (unknown verb) rest t = tt

command_of-names :
    (u : Unicode) (c : Command) (w rest : Text)
    → OneOf w (names c)
    → Takes u c rest
    → command_of u w rest ≡ c
command_of-names u c w rest h t =
    at-name (λ v. command_of u v rest ≡ c) w (names c) h (command_of-each u c rest t)

-- The verb, and the argument behind a space and further white space.
abbrev pub line_of : Text → Text → Text → Text
line_of verb gap [] = verb
line_of verb gap (x ∷ arg) = verb ++ 32 ∷ (gap ++ x ∷ arg)

word-NotIn : (v : Text) → All (λ c. is_space c ≡ false) v → NotIn 32 v
word-NotIn [] h = tt
word-NotIn (c ∷ v) h = (ground (arith, h.0), word-NotIn v h.1)

-- The words of a line: the verb as it was typed, and the argument.
words-line_of :
    (verb gap arg : Text)
    → IsWord verb
    → IsSpace gap
    → IsTrimmed arg
    → words (trim (line_of verb gap arg)) ≡ (verb, arg)
words-line_of verb gap [] w g a =
    ap words (trim_self verb (IsTrimmed-word verb w))
    ∙ ap (λ o. cut_at o verb) (index_of-NotIn 32 verb (word-NotIn verb w.1))
words-line_of verb gap (x ∷ arg) w g a =
    let rest = gap ++ x ∷ arg in
    let line = verb ++ 32 ∷ rest in
    ap words (trim_self line (IsTrimmed-line verb 32 rest w (trim_end-behind (32 ∷ gap) x arg a.1)))
    ∙ ap (λ o. cut_at o line) (index_of-behind 32 verb rest (word-NotIn verb w.1))
    ∙ ap (λ v. (v, trim (drop (length verb + 1) line))) (take-append_self verb (32 ∷ rest))
    ∙ ap (λ s. (verb, trim s))
        (sym (drop-drop (length verb) 1 (length verb + 1) line refl)
          ∙ ap (drop 1) (drop-append_self verb (32 ∷ rest)))
    ∙ ap (λ s. (verb, s))
        (ap trim (ap (λ t. gap ++ t) (sym (append-nil (x ∷ arg))))
          ∙ trim-around gap (x ∷ arg) [] g tt
          ∙ trim_self (x ∷ arg) a)

command_on-some :
    (u : Unicode) (s verb arg : Text)
    → verb ≢ []
    → words s ≡ (verb, arg)
    → command_on u s ≡ some (command_in u (verb, arg))
unfolding index_of starts_with
command_on-some u [] verb arg n e = absurd (n (sym (ap (λ p. p.0) e)))
command_on-some u (c ∷ s) verb arg n e = ap (λ p. some (command_in u p)) e

-- A command is read from its line: one of its words, typed in any case and with any white space
-- around, and behind it, where there is one, the argument, which has no white space at its ends.
pub read_command-line_of :
    (u : Unicode) (c : Command) (pad verb gap arg pad' : Text)
    → IsSpace pad
    → IsSpace pad'
    → IsSpace gap
    → IsWord verb
    → IsTrimmed arg
    → OneOf (to_upper_case u verb) (names c)
    → Takes u c arg
    → read_command u (pad ++ (line_of verb gap arg ++ pad')) ≡ some c
unfolding read_command
read_command-line_of u c pad verb gap arg pad' p q g w a n t =
    ap (command_on u) (trim-around pad (line_of verb gap arg) pad' p q)
    ∙ command_on-some u (trim (line_of verb gap arg)) verb arg w.0
        (words-line_of verb gap arg w g a)
    ∙ ap (λ x. some x) (command_of-names u c (to_upper_case u verb) arg n t)

-- ===== src/Gateway/Envelope/Quoted.antt =====
-- The lines of an envelope of src/thorn/gateway/_envelope.py.
use thorn.Prelude.{
  Bool, Bool-cases, List, Text, [], all, ap, arith, bool_eq, codes, false, if◌then◌else◌, inl, inr,
  is_empty, list_eq, map, nat_beq, nat_eq, not, option_eq, pair_eq, refl, starts_with, sym, true, ℕ,
  ◌&&◌, ◌++◌, ◌∙◌, ◌∷◌, ◌≡◌,
}
use mathlib.Core.List.{append-nil, append_assoc}
use thorn.Gateway.Envelope.{
  ExternalContent, PeerStatus, actor_label, attribution, closing, is_line_break, join_lines,
  non_peer, opening, peer, peer_status_value, quote_line, quoted_body, quoted_lines, splitlines,
  splitlines_loop, unknown_peer, wrap_external,
}

-- text.split("\n"), the line begun first
unfoldable pub split_loop : Text → Text → List Text
split_loop [] line = line ∷ []
split_loop (c ∷ t) line =
    let here = split_loop t [] in
    let on = split_loop t (line ++ (c ∷ [])) in if nat_beq c 10 then line ∷ here else on

-- What a reader of the text sees as its lines.
unfoldable pub lines_of : Text → List Text
lines_of t = split_loop t []

abbrev pub one_line : Text → Bool
one_line t = all (λ c. not (nat_beq c 10)) t

split_loop-append :
    (l : Text) (t line : Text)
    → one_line l ≡ true
    → split_loop (l ++ t) line ≡ split_loop t (line ++ l)
unfolding split_loop
split_loop-append [] t line h = ap (split_loop t) (sym (append-nil line))
split_loop-append (c ∷ l) t line h =
    let other : nat_beq c 10 ≡ false = ground (arith, h) in
    rw (other) (
      split_loop-append l t (line ++ (c ∷ [])) (ground (arith, h))
      ∙ ap (split_loop t) (append_assoc line (c ∷ []) l))

split_loop-newline : (t line : Text) → split_loop (10 ∷ t) line ≡ line ∷ split_loop t []
unfolding split_loop
split_loop-newline t line = refl

lines_of-join_lines :
    (l : Text) (ls : List Text)
    → all one_line (l ∷ ls) ≡ true
    → lines_of (join_lines (l ∷ ls)) ≡ l ∷ ls
unfolding lines_of join_lines split_loop
lines_of-join_lines l [] h =
    ap lines_of (sym (append-nil l)) ∙ split_loop-append l [] [] (ground (arith, h))
lines_of-join_lines l (m ∷ ls) h =
    split_loop-append l (10 ∷ join_lines (m ∷ ls)) [] (ground (arith, h))
    ∙ split_loop-newline (join_lines (m ∷ ls)) l
    ∙ ap (λ rest. l ∷ rest) (lines_of-join_lines m ls (ground (arith, h)))

all-append {ℓ} :
    {A : Type ℓ} (p : A → Bool) (xs ys : List A)
    → all p xs ≡ true
    → all p ys ≡ true
    → all p (xs ++ ys) ≡ true
all-append p [] ys hx hy = hy
all-append p (x ∷ xs) ys hx hy = ground (arith, hx, all-append p xs ys (ground (arith, hx)) hy)

is_line_break-inside : (c : ℕ) → is_line_break c ≡ false → nat_beq c 10 ≡ false
unfolding is_line_break
is_line_break-inside c h = ground (arith, h)

-- str.splitlines leaves no newline in a line.
splitlines_loop-one_line :
    (t : Text) (after_return : Bool) (line : Text)
    → one_line line ≡ true
    → all one_line (splitlines_loop t after_return line) ≡ true
unfolding splitlines_loop
splitlines_loop-one_line [] after_return [] h = refl
splitlines_loop-one_line [] after_return (l ∷ line) h = ground (arith, h)
splitlines_loop-one_line (c ∷ t) after_return line h =
    elim (Bool-cases (after_return && nat_beq c 10)) [
      | inl second ↦ rw (splitlines_loop, second) (splitlines_loop-one_line t false line h)
      | inr first ↦ elim (Bool-cases (is_line_break c)) [
        | inl break ↦
            rw (splitlines_loop, first, break)
              (ground (arith, h, splitlines_loop-one_line t (nat_beq c 13) [] refl))
        | inr inside ↦
            rw (splitlines_loop, first, inside)
              (splitlines_loop-one_line t false (line ++ (c ∷ [])) (
                all-append (λ d. not (nat_beq d 10)) line (c ∷ []) h
                  (ground (arith, is_line_break-inside c inside))))
      ]
    ]

quote_line-one_line : (line : Text) → one_line line ≡ true → one_line (quote_line line) ≡ true
unfolding quote_line
quote_line-one_line [] h = refl
quote_line-one_line (c ∷ line) h = h

quote_lines-one_line :
    (lines : List Text) → all one_line lines ≡ true → all one_line (map quote_line lines) ≡ true
quote_lines-one_line [] h = refl
quote_lines-one_line (l ∷ lines) h =
    let first : one_line (quote_line l) ≡ true = quote_line-one_line l (ground (arith, h)) in
    let rest : all one_line (map quote_line lines) ≡ true =
      quote_lines-one_line lines (ground (arith, h)) in
    ground (arith, first, rest)

quoted_body-one_line : (body : Text) → all one_line (quoted_body body) ≡ true
unfolding quoted_body splitlines
quoted_body-one_line [] = refl
quoted_body-one_line (c ∷ body) =
    quote_lines-one_line (splitlines_loop (c ∷ body) false [])
      (splitlines_loop-one_line (c ∷ body) false [] refl)

abbrev pub is_quoted : Text → Bool
is_quoted l = starts_with l (codes ">")

quote_lines-is_quoted : (lines : List Text) → all is_quoted (map quote_line lines) ≡ true
unfolding quote_line starts_with
quote_lines-is_quoted [] = refl
quote_lines-is_quoted ([] ∷ lines) = quote_lines-is_quoted lines
quote_lines-is_quoted ((c ∷ l) ∷ lines) = quote_lines-is_quoted lines

quoted_body-is_quoted : (body : Text) → all is_quoted (quoted_body body) ≡ true
unfolding quoted_body starts_with quote_line
quoted_body-is_quoted [] = refl
quoted_body-is_quoted (c ∷ body) = quote_lines-is_quoted (splitlines (c ∷ body))

quoted_lines-is_quoted : (e : ExternalContent) → all is_quoted (quoted_lines e) ≡ true
unfolding quoted_lines starts_with
quoted_lines-is_quoted e = quoted_body-is_quoted e.body

-- The fields of an envelope that are not split into lines hold none.
unfoldable pub OneLineFields : ExternalContent → Type 0
OneLineFields e =
    (one_line (actor_label e.actor) ≡ true)
    × (one_line e.source ≡ true)
    × (one_line e.kind ≡ true)
    × (one_line e.timestamp ≡ true)
    × (one_line e.nonce ≡ true)

one_line-append : (t u : Text) → one_line t ≡ true → one_line u ≡ true → one_line (t ++ u) ≡ true
one_line-append t u ht hu = all-append (λ c. not (nat_beq c 10)) t u ht hu

peer_status_value-one_line : (status : PeerStatus) → one_line (peer_status_value status) ≡ true
peer_status_value-one_line peer = refl
peer_status_value-one_line non_peer = refl
peer_status_value-one_line unknown_peer = refl

opening-one_line : (e : ExternalContent) → OneLineFields e → one_line (opening e) ≡ true
unfolding opening OneLineFields
opening-one_line e (actor, source, kind, timestamp, nonce) = one_line-append e.nonce _ nonce (
    one_line-append e.source _ source (
      one_line-append (actor_label e.actor) _ actor (
        one_line-append (peer_status_value e.peer_status) _
          (peer_status_value-one_line e.peer_status)
          (one_line-append e.kind (codes "]") kind refl))))

closing-one_line : (e : ExternalContent) → OneLineFields e → one_line (closing e) ≡ true
unfolding closing OneLineFields
closing-one_line e (actor, source, kind, timestamp, nonce) =
    one_line-append e.nonce (codes "]") nonce refl

attribution-one_line :
    (label timestamp : Text)
    → one_line label ≡ true
    → one_line timestamp ≡ true
    → one_line (attribution label timestamp) ≡ true
unfolding attribution is_empty
attribution-one_line label [] hl ht = one_line-append label (codes ":") hl refl
attribution-one_line label (c ∷ timestamp) hl ht =
    one_line-append (label ++ (codes " (" ++ ((c ∷ timestamp) ++ codes ")"))) (codes ":")
      (one_line-append label (codes " (" ++ ((c ∷ timestamp) ++ codes ")")) hl
        (one_line-append (c ∷ timestamp) (codes ")") ht refl))
      refl

quoted_lines-one_line :
    (e : ExternalContent) → OneLineFields e → all one_line (quoted_lines e) ≡ true
unfolding quoted_lines OneLineFields
quoted_lines-one_line e (actor, source, kind, timestamp, nonce) = ground (
  arith,
  attribution-one_line (actor_label e.actor) e.timestamp actor timestamp,
  quoted_body-one_line e.body,
)

-- When no line ends inside the actor's handle, the source, the kind, the timestamp or the nonce, the
-- lines of a rendered envelope are the opening marker, the quoted lines and the closing marker: the
-- body, whatever it holds, adds quoted lines only, and each of these starts with ">".
pub wrap_external-lines :
    (e : ExternalContent)
    → OneLineFields e
    → (lines_of (wrap_external e) ≡ opening e ∷ (quoted_lines e ++ (closing e ∷ [])))
      × (all is_quoted (quoted_lines e) ≡ true)
unfolding wrap_external
wrap_external-lines e fields = (
  lines_of-join_lines (opening e) (quoted_lines e ++ (closing e ∷ [])) (
      ground (
        arith,
        opening-one_line e fields,
        all-append one_line (quoted_lines e) (closing e ∷ []) (quoted_lines-one_line e fields)
            (ground (arith, closing-one_line e fields)),
      )),
  quoted_lines-is_quoted e,
)

-- ===== src/Gateway/Envelope.antt =====
-- src/thorn/gateway/_envelope.py: untrusted text between markers, every line of it quoted. The nonce
-- that secrets.token_hex draws is an argument.
pub mod Quoted
use thorn.Prelude.{
  ==_iff, Bool, List, Option, Text, [], bool_eq, codes, false, if◌then◌else◌, is_empty, leb,
  list_eq, map, nat_beq, nat_eq, none, option_eq, pair_eq, some, true, ℕ, ◌&&◌, ◌++◌, ◌||◌, ◌∷◌,
}
use thorn.Gateway.Event.{ActorIdentity, at_login_form}

pub data PeerStatus : Type 0 where
  peer non_peer unknown_peer : PeerStatus

abbrev pub peer_status_value : PeerStatus → Text
peer_status_value peer = codes "yes"
peer_status_value non_peer = codes "no"
peer_status_value unknown_peer = codes "unknown"

-- The characters that str.splitlines ends a line at.
unfoldable pub is_line_break : ℕ → Bool
is_line_break c =
    (leb 10 c && leb c 13)
    || (leb 28 c && leb c 30)
    || nat_beq c 0x85
    || nat_beq c 0x2028
    || nat_beq c 0x2029

-- text.splitlines(): the text, whether it follows a carriage return, and the line begun.
unfoldable pub splitlines_loop : Text → Bool → Text → List Text
unfolding is_line_break
splitlines_loop [] after_return [] = []
splitlines_loop [] after_return (l ∷ line) = (l ∷ line) ∷ []
splitlines_loop (c ∷ t) after_return line = elim (after_return && nat_beq c 10) [
  | true ↦ splitlines_loop t false line
  | false ↦ elim (is_line_break c) [
    | true ↦ line ∷ splitlines_loop t (nat_beq c 13) []
    | false ↦ splitlines_loop t false (line ++ (c ∷ []))
  ]
]

unfoldable pub splitlines : Text → List Text
splitlines t = splitlines_loop t false []

-- "\n".join(lines)
unfoldable pub join_lines : List Text → Text
join_lines [] = []
join_lines (l ∷ []) = l
join_lines (l ∷ m ∷ ls) = l ++ (10 ∷ join_lines (m ∷ ls))

unfoldable pub quote_line : Text → Text
quote_line [] = codes ">"
quote_line (c ∷ line) = codes "> " ++ (c ∷ line)

unfoldable pub quoted_body : Text → List Text
quoted_body [] = codes "> (no body)" ∷ []
quoted_body (c ∷ body) = map quote_line (splitlines (c ∷ body))

abbrev pub actor_label : Option ActorIdentity → Text
actor_label none = codes "(unknown actor)"
actor_label (some actor) = at_login_form actor

unfoldable pub attribution : Text → Text → Text
attribution label timestamp =
    (if is_empty timestamp then label else label ++ (codes " (" ++ (timestamp ++ codes ")")))
    ++ codes ":"

-- The arguments of wrap_external, with its nonce.
pub record ExternalContent : Type 0 where
  pub body : Text
  pub actor : Option ActorIdentity
  pub source : Text
  pub kind : Text
  pub peer_status : PeerStatus
  pub timestamp : Text
  pub nonce : Text

unfoldable pub opening : ExternalContent → Text
opening e =
    codes "[external-content nonce="
    ++ (e.nonce
        ++ (codes " source="
            ++ (e.source
                ++ (codes " actor="
                    ++ (actor_label e.actor
                        ++ (codes " peer="
                            ++ (peer_status_value e.peer_status
                                ++ (codes " kind=" ++ (e.kind ++ codes "]")))))))))

unfoldable pub closing : ExternalContent → Text
closing e = codes "[/external-content nonce=" ++ (e.nonce ++ codes "]")

unfoldable pub quoted_lines : ExternalContent → List Text
quoted_lines e =
    (codes "> " ++ attribution (actor_label e.actor) e.timestamp) ∷ codes ">" ∷ quoted_body e.body

unfoldable pub wrap_external : ExternalContent → Text
wrap_external e = join_lines (opening e ∷ (quoted_lines e ++ (closing e ∷ [])))

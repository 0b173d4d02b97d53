-- ===== src/Cli/Address.antt =====
-- MakeAddress and SplitAddress of done_cli/cli_done/HubClient.go: addresses of five parts, whose
-- separator and wildcards the transport gives.
use Prim.Native.Char.{Char, code}
use Prim.Native.String.{◌++◌ as append_text}
use text.Mathlib.TextLemmas.{append-nil, cons-append}
use done_rest.Prelude.{
  String, Bool, true, false, ◌&&◌, ◌≡◌, refl, ap, ◌∙◌, Option, none, some, List, [], ◌∷◌, All, eqb,
  if◌then◌else◌,
}
use done_rest.Errors.{Error}
use done_rest.Transport.{
  message_type_action, message_type_config, message_type_event, message_type_rpc,
  message_type_inbox,
}
use done_rest.Transport.Split.{split, Avoids, split-Avoids, split-append}
use done_rest.Transport.Subjects.{
  Subject, empty_subject, or_default, first_or_empty, join_five, make_subject, dot,
}

-- AddressTokens of IHubTransport: the separator, the wildcard, and the wildcard of the remainder.
-- The separator is one character.
pub record AddressTokens : Type 0 where
  pub sep : Char
  pub wc : String
  pub rem : String

abbrev pub nats_tokens : AddressTokens
nats_tokens = record { sep = dot; wc = "*"; rem = ">" }

-- Go's `strings.Join` behind a first part.
unfoldable pub joined : Char → List String → String
joined sep [] = ""
joined sep (p ∷ ps) = String.◌∷◌ sep (append_text p (joined sep ps))

unfoldable pub join : Char → List String → String
unfolding joined
join sep [] = ""
join sep (p ∷ ps) = append_text p (joined sep ps)

-- Go's `strings.HasPrefix`.
unfoldable pub has_prefix : String → String → Bool
has_prefix s String.[] = true
has_prefix String.[] (String.◌∷◌ p ps) = false
has_prefix (String.◌∷◌ c s) (String.◌∷◌ p ps) = eqb (code c) (code p) && has_prefix s ps

abbrev pub address_parts : AddressTokens → String → String → String → String → String → List String
address_parts t msg_type agent_id thing_id name client_id =
    or_default msg_type message_type_event
    ∷ or_default agent_id t.wc
    ∷ or_default thing_id t.wc
    ∷ or_default name t.wc
    ∷ or_default client_id t.rem
    ∷ []

unfoldable pub make_address : AddressTokens → String → String → String → String → String → String
unfolding join
make_address t msg_type agent_id thing_id name client_id =
    join t.sep (address_parts t msg_type agent_id thing_id name client_id)

unfoldable pub inbox_of_parts : List String → Subject
unfolding first_or_empty
inbox_of_parts [] = empty_subject
inbox_of_parts (a ∷ rest) = record empty_subject { msg_type = a; agent_id = first_or_empty rest }

unfoldable pub address_of_parts : List String → Subject × Option Error
unfolding first_or_empty
address_of_parts (a ∷ b ∷ c ∷ d ∷ rest) = (
  record { msg_type = a; agent_id = b; thing_id = c; name = d; sender_id = first_or_empty rest },
  none,
)
address_of_parts _ = (empty_subject, some Error.incomplete_address)

unfoldable pub split_address : AddressTokens → String → Subject × Option Error
unfolding has_prefix inbox_of_parts address_of_parts
split_address t addr =
    let parts = split (code t.sep) addr in
    if has_prefix addr message_type_inbox
    then (inbox_of_parts parts, none)
    else address_of_parts parts

split-joined :
    (sep : Char) (p : String) (ps : List String)
    → Avoids (code sep) p
    → All (Avoids (code sep)) ps
    → split (code sep) (append_text p (joined sep ps)) ≡ p ∷ ps
unfolding joined
split-joined sep p [] h _ = rw (append-nil p) (split-Avoids (code sep) p h)
split-joined sep p (q ∷ qs) h hs =
    split-append sep p _ h ∙ ap (λ (x : List String). p ∷ x) (split-joined sep q qs hs.0 hs.1)

-- With the tokens of NATS the addresses are the subjects of the server's permissions.
pub make_address-make_subject :
    (msg_type agent_id thing_id name client_id : String)
    → make_address nats_tokens msg_type agent_id thing_id name client_id
      ≡ make_subject msg_type agent_id thing_id name client_id
unfolding make_address make_subject join_five
make_address-make_subject msg_type agent_id thing_id name client_id =
    rw (append-nil (or_default client_id ">")) refl

-- One of the four types of messages, with the first letter of which no inbox begins.
pub data IsMessageType : String → Type 0 where
  action : IsMessageType message_type_action
  config : IsMessageType message_type_config
  event : IsMessageType message_type_event
  rpc : IsMessageType message_type_rpc

not_inbox_cons :
    (c : Char) (s rest : String)
    → eqb (code c) (code "_") ≡ false
    → has_prefix (append_text (String.◌∷◌ c s) rest) message_type_inbox ≡ false
unfolding has_prefix
not_inbox_cons c s rest other = rw cons-append (rw (other, has_prefix) refl)

not_inbox :
    (msg_type rest : String)
    → IsMessageType msg_type
    → has_prefix (append_text msg_type rest) message_type_inbox ≡ false
not_inbox _ rest action = not_inbox_cons "a" "ction" rest refl
not_inbox _ rest config = not_inbox_cons "c" "onfig" rest refl
not_inbox _ rest event = not_inbox_cons "e" "vent" rest refl
not_inbox _ rest rpc = not_inbox_cons "r" "pc" rest refl

-- An address of one of the four message types, whose parts and wildcards do not hold the separator,
-- splits into its parts, each empty one as the default that it was made with.
pub split_address-make_address :
    (t : AddressTokens) (msg_type agent_id thing_id name client_id : String)
    → IsMessageType (or_default msg_type message_type_event)
    → All (Avoids (code t.sep)) (address_parts t msg_type agent_id thing_id name client_id)
    → split_address t (make_address t msg_type agent_id thing_id name client_id) ≡ (
      record {
        msg_type = or_default msg_type message_type_event;
        agent_id = or_default agent_id t.wc;
        thing_id = or_default thing_id t.wc;
        name = or_default name t.wc;
        sender_id = or_default client_id t.rem;
      },
      none,
    )
unfolding split_address make_address
split_address-make_address t msg_type agent_id thing_id name client_id is_type free =
    let rest =
      or_default agent_id t.wc
      ∷ or_default thing_id t.wc
      ∷ or_default name t.wc
      ∷ or_default client_id t.rem
      ∷ [] in
    rw (not_inbox _ (joined t.sep rest) is_type)
      (ap address_of_parts (split-joined t.sep _ rest free.0 free.1))

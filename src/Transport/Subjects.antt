-- ===== src/Transport/Subjects.antt =====
-- done_cli/cli_done/transport/subjects.go: NATS subjects of five tokens joined by dots.
use Prim.Native.Char.{Char}
use Prim.Native.String.{◌++◌ as append_text}
use text.Mathlib.TextLemmas.{nil-append, cons-append, cons≢nil}
use done_rest.Prelude.{
  String, ◌≡◌, ap, ◌∙◌, arith, Option, none, some, List, [], ◌∷◌, ◌==◌, if◌then◌else◌, ne→false,
  Bool-cases, inl, inr,
}
use done_rest.Errors.{Error}
use done_rest.Transport.{message_type_event}
use done_rest.Transport.Split.{split, Avoids, split-Avoids, split-append}

abbrev pub dot : Char
dot = "."

unfoldable pub or_default : String → String → String
or_default s default = if s == "" then default else s

-- Sprintf with five texts and dots between them.
unfoldable pub join_five : String → String → String → String → String → String
join_five a b c d e = append_text a (
    String.◌∷◌ dot (
      append_text b
        (String.◌∷◌ dot (append_text c (String.◌∷◌ dot (append_text d (String.◌∷◌ dot e)))))))

unfoldable pub make_subject : String → String → String → String → String → String
unfolding or_default join_five
make_subject msg_type agent_id thing_id name client_id =
    join_five (or_default msg_type message_type_event) (or_default agent_id "*")
      (or_default thing_id "*") (or_default name "*") (or_default client_id ">")

pub record Subject : Type 0 where
  pub msg_type : String
  pub agent_id : String
  pub thing_id : String
  pub name : String
  pub sender_id : String

abbrev pub empty_subject : Subject
empty_subject = record { msg_type = ""; agent_id = ""; thing_id = ""; name = ""; sender_id = "" }

unfoldable pub first_or_empty : List String → String
first_or_empty [] = ""
first_or_empty (p ∷ ps) = p

unfoldable pub subject_of_parts : List String → Subject × Option Error
unfolding first_or_empty
subject_of_parts (a ∷ b ∷ c ∷ d ∷ rest) = (
  record { msg_type = a; agent_id = b; thing_id = c; name = d; sender_id = first_or_empty rest },
  none,
)
subject_of_parts _ = (empty_subject, some Error.incomplete_subject)

unfoldable pub split_subject : String → Subject × Option Error
unfolding subject_of_parts
split_subject subject = subject_of_parts (split b'.' subject)

-- Four tokens without a dot, and any text behind them.
split-join_five :
    (a b c d e : String)
    → Avoids b'.' a
    → Avoids b'.' b
    → Avoids b'.' c
    → Avoids b'.' d
    → split b'.' (join_five a b c d e) ≡ a ∷ b ∷ c ∷ d ∷ split b'.' e
unfolding join_five
split-join_five a b c d e ha hb hc hd =
    split-append dot a _ ha
    ∙ ap (λ (x : List String). a ∷ x)
        (split-append dot b _ hb
          ∙ ap (λ (x : List String). b ∷ x)
              (split-append dot c _ hc ∙ ap (λ (x : List String). c ∷ x) (split-append dot d e hd)))

Avoids-or_default :
    (s default : String) → Avoids b'.' s → Avoids b'.' default → Avoids b'.' (or_default s default)
unfolding or_default
Avoids-or_default s default h k = elim (Bool-cases (s == "")) [
  | inl blank ↦ rw blank k
  | inr given ↦ rw given h
]

pub record AreTokens (msg_type agent_id thing_id name : String) : Type 0 where
  pub msg_type_free : Avoids b'.' msg_type
  pub agent_id_free : Avoids b'.' agent_id
  pub thing_id_free : Avoids b'.' thing_id
  pub name_free : Avoids b'.' name

split-make_subject :
    (msg_type agent_id thing_id name client_id : String)
    → AreTokens msg_type agent_id thing_id name
    → split b'.' (make_subject msg_type agent_id thing_id name client_id)
      ≡ or_default msg_type message_type_event
        ∷ or_default agent_id "*"
        ∷ or_default thing_id "*"
        ∷ or_default name "*"
        ∷ split b'.' (or_default client_id ">")
unfolding make_subject
split-make_subject msg_type agent_id thing_id name client_id h =
    split-join_five _ _ _ _ _
      (Avoids-or_default msg_type message_type_event h.msg_type_free (omega arith))
      (Avoids-or_default agent_id "*" h.agent_id_free (omega arith))
      (Avoids-or_default thing_id "*" h.thing_id_free (omega arith))
      (Avoids-or_default name "*" h.name_free (omega arith))

-- Splitting a subject that was made of parts without a dot gives the parts back, each empty one as
-- the default that it was made with: the event type, the wildcard `*`, and `>` for the sender.
split_subject-make_subject :
    (msg_type agent_id thing_id name client_id : String)
    → AreTokens msg_type agent_id thing_id name
    → Avoids b'.' client_id
    → split_subject (make_subject msg_type agent_id thing_id name client_id) ≡ (
      record {
        msg_type = or_default msg_type message_type_event;
        agent_id = or_default agent_id "*";
        thing_id = or_default thing_id "*";
        name = or_default name "*";
        sender_id = or_default client_id ">";
      },
      none,
    )
unfolding split_subject
split_subject-make_subject msg_type agent_id thing_id name client_id h free =
    ap subject_of_parts (split-make_subject msg_type agent_id thing_id name client_id h)
    ∙ ap
        (λ (x : List String). subject_of_parts (
          or_default msg_type message_type_event
          ∷ or_default agent_id "*"
          ∷ or_default thing_id "*"
          ∷ or_default name "*"
          ∷ x))
        (split-Avoids b'.' (or_default client_id ">")
          (Avoids-or_default client_id ">" free (omega arith)))

or_default_cons :
    (c : Char) (s default : String) → or_default (String.◌∷◌ c s) default ≡ String.◌∷◌ c s
unfolding or_default
or_default_cons c s default = rw (ne→false (String.◌∷◌ c s) "" cons≢nil, or_default)

or_default_dotted :
    (p q default : String)
    → or_default (append_text p (String.◌∷◌ dot q)) default ≡ append_text p (String.◌∷◌ dot q)
or_default_dotted String.[] q default = rw nil-append (or_default_cons dot q default)
or_default_dotted (String.◌∷◌ c p) q default = rw cons-append (or_default_cons c _ default)

-- A sender whose ID has a dot, as an email address may, is read back from the subject as the part
-- of its ID before the first dot: the ID of another client, if there is one of that name.
split_subject_dotted_sender :
    (msg_type agent_id thing_id name p q : String)
    → AreTokens msg_type agent_id thing_id name
    → Avoids b'.' p
    → let subject =
        make_subject msg_type agent_id thing_id name (append_text p (String.◌∷◌ dot q)) in
      ((split_subject subject).0.sender_id ≡ p) × ((split_subject subject).1 ≡ none)
unfolding split_subject
split_subject_dotted_sender msg_type agent_id thing_id name p q h free =
    let whole = append_text p (String.◌∷◌ dot q) in
    let parts =
      split-make_subject msg_type agent_id thing_id name whole h
      ∙ ap
          (λ (x : String).
            or_default msg_type message_type_event
            ∷ or_default agent_id "*"
            ∷ or_default thing_id "*"
            ∷ or_default name "*"
            ∷ split b'.' x)
          (or_default_dotted p q ">")
      ∙ ap
          (λ (x : List String).
            or_default msg_type message_type_event
            ∷ or_default agent_id "*"
            ∷ or_default thing_id "*"
            ∷ or_default name "*"
            ∷ x)
          (split-append dot p q free) in
    (
      ap (λ (x : List String). (subject_of_parts x).0.sender_id) parts,
      ap (λ (x : List String). (subject_of_parts x).1) parts,
    )

-- ===== src/Dns/Parser/NoPanic.antt =====
-- `parseDNSMessage` as a whole on any packet that fits the read buffers of the server.
use pikonode.Prelude.{
  ℕ, zero, suc, ◌≤◌, ◌<◌, ◌≡◌, Option, none, some, List, [], ◌∷◌, ◌++◌, length, drop, length-drop,
  leb, Bool-cases, inl, inr, Outcome, returns, ◌>>=◌, Returns, Returns->>=, Returns-value, arith,
}
use pikonode.Prelude.Bits.{Bytes}
use pikonode.Dns.Message.{DnsQuestion, DnsRecord, DnsMessage, zero_message}
use pikonode.Dns.Parser.{
  DnsError, Labels, slice_from, Section, Questions, question_fields, parse_question,
  parse_questions, Parsed, parse_additional, parse_authority, parse_answers, parse_body,
  parse_header, parse_dns_message, question_of, question_labels_failed, answers_failed,
  authority_failed, additional_failed, message_too_short,
}
use pikonode.Dns.Parser.Total.{parse_labels-Returns, parse_record_section-Returns}

-- The bytes left are no more than `n`.
abbrev LeftWithin : ℕ → Questions → Type 0
LeftWithin n r = length r.1 ≤ n

abbrev QuestionsReturn : ℕ → (Bytes → List DnsQuestion → Outcome Questions) → Type 0
QuestionsReturn n next =
    (question : Bytes) (questions : List DnsQuestion)
    → length question ≤ n
    → Returns (LeftWithin n) (next question questions)

question_fields-Returns :
    (next : Bytes → List DnsQuestion → Outcome Questions) (labels : List Bytes) (question : Bytes)
    (questions : List DnsQuestion) (n : ℕ)
    → QuestionsReturn n next
    → length question ≤ n
    → Returns (LeftWithin n) (question_fields next labels question questions)
unfolding question_fields
question_fields-Returns next labels question questions n h k = ground (
  arith,
  length-drop 4 question,
  h (drop 4 question) (questions ++ (question_of labels question ∷ [])),
)

parse_question-Returns :
    (next : Bytes → List DnsQuestion → Outcome Questions) (msg question : Bytes)
    (questions : List DnsQuestion) (n : ℕ)
    → QuestionsReturn n next
    → length question ≤ n
    → Returns (LeftWithin n) (parse_question next msg question questions)
unfolding parse_question
parse_question-Returns next msg question questions n h k =
    Returns->>= (λ r. r.1 ≤ length question) _ _ _ (parse_labels-Returns msg question) after
  where
    after :
        (r : Labels)
        → r.1 ≤ length question
        → Returns (LeftWithin n) (elim r.2 [
          | some e ↦ returns (questions, question, some (question_labels_failed e))
          | none ↦ do rest ← slice_from question r.1; question_fields next r.0 rest questions
        ])
    after (labels, offs, some e) fits = k
    after (labels, offs, none) fits = ground (
      arith,
      length-drop offs question,
      question_fields-Returns next labels (drop offs question) questions n h,
    )

parse_questions-Returns :
    (count : ℕ) (msg question : Bytes) (questions : List DnsQuestion) (n : ℕ)
    → length question ≤ n
    → Returns (LeftWithin n) (parse_questions msg count question questions)
unfolding parse_questions
parse_questions-Returns zero msg question questions n k = k
parse_questions-Returns (suc count) msg [] questions n k = k
parse_questions-Returns (suc count) msg (b ∷ bs) questions n k =
    parse_question-Returns (parse_questions msg count) msg (b ∷ bs) questions n
      (λ question questions. parse_questions-Returns count msg question questions n) k

abbrev Done : Parsed → Type 0
Done _ = Unit {0}

parse_additional-Returns :
    (buf : Bytes) (msg : DnsMessage) (question : Bytes)
    → length question < 65536
    → Returns Done (parse_additional buf msg question)
unfolding parse_additional
parse_additional-Returns buf msg question k =
    Returns->>= _ _ _ _ (parse_record_section-Returns msg.arcount buf question k) after
  where
    after :
        (r : Section)
        → r.1 ≤ length question
        → Returns Done (elim r.2 [
          | some e ↦ returns (record msg { additional = r.0 }, some (additional_failed e))
          | none ↦ returns (record msg { additional = r.0 }, none)
        ])
    after (records, offs, some e) fits = tt
    after (records, offs, none) fits = tt

-- The step from one section to the next.
next_section-Returns :
    (question : Bytes) (wrap : DnsError → DnsError) (store : List DnsRecord → DnsMessage)
    (next : DnsMessage → Bytes → Outcome Parsed)
    → length question < 65536
    → ((msg : DnsMessage) (rest : Bytes) → length rest < 65536 → Returns Done (next msg rest))
    → (r : Section) → r.1 ≤ length question
    → Returns Done (elim r.2 [
      | some e ↦ returns (store r.0, some (wrap e))
      | none ↦ do rest ← slice_from question r.1; next (store r.0) rest
    ])
next_section-Returns question wrap store next k h (records, offs, some e) fits = tt
next_section-Returns question wrap store next k h (records, offs, none) fits =
    ground (arith, length-drop offs question, h (store records) (drop offs question))

parse_authority-Returns :
    (buf : Bytes) (msg : DnsMessage) (question : Bytes)
    → length question < 65536
    → Returns Done (parse_authority buf msg question)
unfolding parse_authority
parse_authority-Returns buf msg question k =
    Returns->>= _ _ _ _ (parse_record_section-Returns msg.nscount buf question k) (
      next_section-Returns question authority_failed (λ l. record msg { authority = l })
        (parse_additional buf) k (parse_additional-Returns buf))

parse_answers-Returns :
    (buf : Bytes) (msg : DnsMessage) (question : Bytes)
    → length question < 65536
    → Returns Done (parse_answers buf msg question)
unfolding parse_answers
parse_answers-Returns buf msg question k =
    Returns->>= _ _ _ _ (parse_record_section-Returns msg.ancount buf question k) (
      next_section-Returns question answers_failed (λ l. record msg { answers = l })
        (parse_authority buf) k (parse_authority-Returns buf))

parse_body-Returns :
    (buf : Bytes) (msg : DnsMessage)
    → length (drop 12 buf) < 65536
    → Returns Done (parse_body buf msg)
unfolding parse_body
parse_body-Returns buf msg k =
    Returns->>= _ _ _ _
      (parse_questions-Returns msg.qdcount buf (drop 12 buf) [] (length (drop 12 buf))
        (omega arith))
      after
  where
    after :
        (r : Questions)
        → length r.1 ≤ length (drop 12 buf)
        → Returns Done (elim r.2 [
          | some e ↦ returns (record msg { questions = r.0 }, some e)
          | none ↦ parse_answers buf (record msg { questions = r.0 }) r.1
        ])
    after (questions, rest, some e) fits = tt
    after (questions, rest, none) fits =
        parse_answers-Returns buf (record msg { questions = questions }) rest (omega arith)

-- On every packet of at most 64 KiB `parseDNSMessage` returns a message and an error or none: it
-- ends, and it does not panic, whatever the pointers, the counts and the lengths in the packet.
pub parse_dns_message-Returns :
    (buf : Bytes)
    → length buf ≤ 65536
    → (msg : DnsMessage) × (err : Option DnsError) × (parse_dns_message buf ≡ returns (msg, err))
unfolding parse_dns_message
parse_dns_message-Returns buf k = elim (Bool-cases (leb (length buf) 12)) [
  | inl short ↦ (zero_message, some message_too_short, rw short)
  | inr long ↦
      let (r, e, _) =
        Returns-value Done _
          (parse_body-Returns buf (parse_header buf) (rw length-drop (omega arith))) in
      (r.0, r.1, rw long e)
]

-- ===== src/Examples/Messages.antt =====
-- The theorems about Services/ on concrete messages, sent to a service whose state is whether the
-- firewall is on.
use vpn_client.Prelude.{
  ℕ, ◌==◌, ==_iff, ◌&&◌, &&-eq-true, Bool, true, false, if◌then◌else◌, List, [], ◌∷◌, ◌++◌, ◌≡◌,
  ◌≢◌, ◌⊎◌, refl, sym, ap, subst, ◌∙◌, arith, Bytes, codes, equal, equal_iff, pos, Bool-cases, inl,
  inr, ◌≤◌, ◌<◌,
}
use vpn_client.Core.Status.{ErrorCode, Status, is_error, make, Result, value, error}
use vpn_client.Services.Methods.{
  Method, requires_administrator, number, is_known_method, is_known_method-number,
}
use vpn_client.Services.Protocol.{
  Request, Response, encode_request, encode_response, decode_request, decode_response, make_success,
  make_error,
}
use vpn_client.Services.Protocol.RoundTrip.{
  decode_request-encode_request, decode_response-encode_response,
}
use vpn_client.Services.Protocol.Accepted.{IsAccepted, decode_request-IsAccepted}
use vpn_client.Services.Framing.{
  JsonText, IsFaithful, Delivery, bytes, wrote, frame, frame_text, prefix_of, read_frame,
  read_frame_length, write_all, max_frame_bytes,
}
use vpn_client.Services.Framing.Bounds.{read_frame_length-fits}
use vpn_client.Services.Framing.Stream.{
  stream, IsFlowing, Matches, take_frame, read_frame-Matches, take_frame-frame,
}
use vpn_client.Services.Framing.Writing.{write_all-sends, IsAnswers}
use vpn_client.Services.Server.{
  Handler, find_handler, Server, Caller, Session, dispatch, reply, serve_frame, serve,
}
use vpn_client.Services.Server.Guard.{IsKept, IsServed, serve-IsServed}
use vpn_client.Services.Server.Arrival.{serve_frame-dispatch}
use vpn_client.Examples.Host.{
  Document, empty_object, field, string, count, flag, documents, documents-IsLawful,
}

same_document : Document → Document → Bool
unfolding equal
same_document empty_object empty_object = true
same_document (field n d rest) (field m e others) =
    equal n m && (same_document d e && same_document rest others)
same_document (string b) (string c) = equal b c
same_document (count n) (count m) = n == m
same_document (flag true) (flag true) = true
same_document (flag false) (flag false) = true
same_document _ _ = false

same_document_eq : (d e : Document) → same_document d e ≡ true → d ≡ e
unfolding same_document
same_document_eq empty_object empty_object h = refl
same_document_eq (field n d rest) (field m e others) h =
    let (names, both) = &&-eq-true (equal n m) _ h in
    let (fields, tails) = &&-eq-true (same_document d e) _ both in
    cc ((equal_iff n m).0 names, same_document_eq d e fields, same_document_eq rest others tails)
same_document_eq (string b) (string c) h = ap string ((equal_iff b c).0 h)
same_document_eq (count n) (count m) h = ap count ((==_iff n m).0 h)
same_document_eq (flag true) (flag true) h = refl
same_document_eq (flag false) (flag false) h = refl
same_document_eq _ _ h = absurd (cc (h))

abbrev request : Request documents
request = record { id = 7; method = Method.connect; params = documents.object [] }

abbrev refusal : Response documents
refusal = record {
  id = 7;
  success = false;
  result = documents.object [];
  error_code = 703;
  error_message = codes "first request must be Hello";
  platform_code = 0;
}

-- Texts for two documents, and for no other.
text_of : Document → Bytes ⊎ Bytes
unfolding same_document encode_request encode_response
text_of d =
    if same_document d (encode_request documents request)
    then inr (1 ∷ [])
    else if same_document d (encode_response documents refusal)
    then inr (2 ∷ 2 ∷ [])
    else inl []

document_of : Bytes → Result Document
unfolding encode_request encode_response
document_of (b ∷ []) = value (encode_request documents request)
document_of (b ∷ c ∷ []) = value (encode_response documents refusal)
document_of _ = error (make ErrorCode.parse_error [])

abbrev texts : JsonText Document
texts = record { dump = text_of; parse = document_of }

parse-dump : (d : Document) (text : Bytes) → text_of d ≡ inr text → document_of text ≡ value d
unfolding text_of document_of
parse-dump d text h = elim (Bool-cases (same_document d (encode_request documents request))) [
  | inl same ↦
      let e : 1 ∷ [] ≡ text = cc (rw (same, text_of) at h) in
      ap document_of (sym e)
      ∙ ap value (sym (same_document_eq d (encode_request documents request) same))
  | inr other ↦ elim (Bool-cases (same_document d (encode_response documents refusal))) [
    | inl same ↦
        let e : 2 ∷ 2 ∷ [] ≡ text = cc (rw same at (rw (other, text_of) at h)) in
        ap document_of (sym e)
        ∙ ap value (sym (same_document_eq d (encode_response documents refusal) same))
    | inr neither ↦ absurd (cc (rw neither at (rw (other, text_of) at h)))
  ]
]

dump_present : (d : Document) (text : Bytes) → text_of d ≡ inr text → text ≢ []
unfolding text_of
dump_present d text h empty =
    elim (Bool-cases (same_document d (encode_request documents request))) [
      | inl same ↦ absurd (cc (empty, rw (same, text_of) at h))
      | inr other ↦ elim (Bool-cases (same_document d (encode_response documents refusal))) [
        | inl same ↦ absurd (cc (empty, rw same at (rw (other, text_of) at h)))
        | inr neither ↦ absurd (cc (rw neither at (rw (other, text_of) at h)))
      ]
    ]

texts-IsFaithful : IsFaithful texts
texts-IsFaithful = record { parse-dump = parse-dump; dump_present = dump_present }

-- Connecting leaves the firewall as it is; setting its policy turns it off.
abbrev connect_handler : Handler documents Bool
connect_handler context s = (s, make_success documents context.request.id (documents.object []))

abbrev firewall_handler : Handler documents Bool
firewall_handler context s =
    (false, make_success documents context.request.id (documents.object []))

abbrev server : Server documents Bool
server = record {
  version = codes "1.0";
  uptime = pos 0;
  handlers =
      (Method.connect, connect_handler) ∷ (Method.set_firewall_policy, firewall_handler) ∷ [];
}

abbrev user : Caller documents Bool
user = record { is_admin = false; connection_id = 1 }

-- The frame of the request, in two reads.
abbrev session : Session documents Bool
session = record {
  pipe = bytes (1 ∷ 0 ∷ []) ∷ bytes (0 ∷ 0 ∷ 1 ∷ []) ∷ [];
  answers = wrote 4 ∷ wrote 4 ∷ [];
  sent = [];
  hello_done = false;
  ready = false;
  service = true;
}

same_method_eq : (m n : Method) → number m ≡ number n → m ≡ n
same_method_eq m n h = cc (is_known_method-number m, is_known_method-number n, ap is_known_method h)

gated : {A : Type 0} → requires_administrator Method.set_firewall_policy ≡ false → A
unfolding requires_administrator
gated h = absurd (cc (h))

user-IsKept : IsKept documents Bool server user (λ s. s ≡ true)
unfolding find_handler number
user-IsKept m h found open_to context s p = elim (Bool-cases (number Method.connect == number m)) [
  | inl same ↦
      let e : connect_handler ≡ h = cc (rw same at found) in
      ap (λ (k : Handler documents Bool). (k context s).0) (sym e) ∙ p
  | inr other ↦ elim (Bool-cases (number Method.set_firewall_policy == number m)) [
    | inl same ↦
        let e =
          same_method_eq Method.set_firewall_policy m
            ((==_iff (number Method.set_firewall_policy) (number m)).0 same) in
        gated (subst (λ k. requires_administrator k ≡ false) (sym e) (ground (arith, open_to)))
    | inr neither ↦ absurd (cc (rw neither at (rw other at found)))
  ]
]

decode_request-encode_request_example :
    decode_request documents (encode_request documents request) ≡ value request
decode_request-encode_request_example =
    decode_request-encode_request documents documents-IsLawful request refl (omega arith) refl

abbrev denied : Status
denied = record { code = ErrorCode.permission_denied; message = codes "no"; platform_code = 5 }

decode_response-encode_response_example :
    (decode_response documents (encode_response documents (make_success documents 9 (count 1)))
      ≡ value (make_success documents 9 (count 1)))
    × (decode_response documents (encode_response documents (make_error documents 9 denied))
        ≡ value (make_error documents 9 denied))
decode_response-encode_response_example =
    decode_response-encode_response documents documents-IsLawful 9 (count 1) denied (omega arith)
      (omega arith)

decode_request-IsAccepted_example :
    IsAccepted documents documents-IsLawful (encode_request documents request) request
decode_request-IsAccepted_example =
    decode_request-IsAccepted documents documents-IsLawful (encode_request documents request)
      request decode_request-encode_request_example

framed_request : frame texts (encode_request documents request) ≡ value (1 ∷ 0 ∷ 0 ∷ 0 ∷ 1 ∷ [])
unfolding frame frame_text text_of same_document encode_request prefix_of equal
framed_request = refl

session_flows : IsFlowing session.pipe
unfolding IsFlowing
session_flows = tt

session_stream : stream session.pipe ≡ (1 ∷ 0 ∷ 0 ∷ 0 ∷ 1 ∷ []) ++ []
unfolding stream
session_stream = refl

length_read : read_frame_length (1 ∷ 2 ∷ 0 ∷ 0 ∷ []) ≡ value 513
unfolding read_frame_length
length_read = refl

read_frame_length-fits_example : (0 < 513) × (513 ≤ max_frame_bytes) × (4 ≤ 4)
read_frame_length-fits_example = read_frame_length-fits (1 ∷ 2 ∷ 0 ∷ 0 ∷ []) 513 length_read

abbrev quiet : ℕ → Bytes
quiet code = []

read_frame-Matches_example :
    Matches quiet
      (read_frame quiet texts session.pipe)
      (take_frame quiet texts (stream session.pipe))
read_frame-Matches_example = read_frame-Matches quiet texts session.pipe session_flows

take_frame-frame_example :
    take_frame quiet texts ((1 ∷ 0 ∷ 0 ∷ 0 ∷ 1 ∷ []) ++ 9 ∷ [])
    ≡ (value (encode_request documents request), 9 ∷ [])
take_frame-frame_example =
    take_frame-frame quiet texts texts-IsFaithful (encode_request documents request)
      (1 ∷ 0 ∷ 0 ∷ 0 ∷ 1 ∷ []) (9 ∷ []) framed_request

session_answers : IsAnswers session.answers
unfolding IsAnswers
session_answers = tt

write_all-sends_example :
    (unsent : Bytes) × (1 ∷ 2 ∷ 3 ∷ 4 ∷ 5 ∷ 6 ∷ []
      ≡ (write_all quiet session.answers (1 ∷ 2 ∷ 3 ∷ 4 ∷ 5 ∷ 6 ∷ [])).1 ++ unsent)
    × (is_error (write_all quiet session.answers (1 ∷ 2 ∷ 3 ∷ 4 ∷ 5 ∷ 6 ∷ [])).0 ≡ false
        → unsent ≡ [])
write_all-sends_example =
    write_all-sends quiet session.answers (1 ∷ 2 ∷ 3 ∷ 4 ∷ 5 ∷ 6 ∷ []) session_answers

serve-IsServed_example :
    IsServed documents Bool server user
      (λ s. s ≡ true)
      texts
      quiet
      session
      (serve documents Bool texts quiet server user (false ∷ false ∷ []) session)
serve-IsServed_example =
    serve-IsServed documents Bool server user (λ s. s ≡ true) texts quiet (false ∷ false ∷ [])
      session user-IsKept refl (λ h. h)

serve_frame-dispatch_example :
    (rest : List Delivery) × (stream rest ≡ [])
    × IsFlowing rest
    × (serve_frame documents Bool texts quiet server user session ≡ (
        let answer = dispatch documents Bool server user request false true in
        reply documents Bool texts quiet answer.0.1
          (record session { pipe = rest; hello_done = answer.1; service = answer.0.0 })))
serve_frame-dispatch_example =
    serve_frame-dispatch documents documents-IsLawful texts texts-IsFaithful quiet Bool server user
      request (1 ∷ 0 ∷ 0 ∷ 0 ∷ 1 ∷ []) [] session refl (omega arith) refl framed_request
      session_flows session_stream

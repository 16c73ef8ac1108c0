-- ===== src/Services/Protocol/Accepted.antt =====
-- What `decodeRequest` of Services/src/IpcProtocol.cpp accepts.
use vpn_client.Prelude.{
  ℕ, ◌==◌, ==_iff, true, false, ltb, List, [], ◌∷◌, Option, none, some, ◌≡◌, refl, sym, ap, subst,
  ◌∙◌, Bytes, codes, equal, equal_iff, ℤ, pos, negsuc, Bool-cases, inl, inr,
}
use vpn_client.Core.Status.{value}
use vpn_client.Core.Json
use vpn_client.Core.Json.{JsonLibrary, get}
use vpn_client.Services.Methods.{Method, number, entry_with, is_known_method, methods, nameless}
use vpn_client.Services.Protocol.{Request, is_protocol, short, type_of, with_params, decode_request}

entry_with-value :
    {A : Type 0} (value_of : A → ℕ) (raw : ℕ) (entries : List (A × Bytes)) (a : A) (text : Bytes)
    → entry_with value_of raw entries ≡ some (a, text)
    → value_of a ≡ raw
unfolding entry_with
entry_with-value value_of raw [] a text h = absurd (cc (h))
entry_with-value value_of raw ((b, name) ∷ entries) a text h =
    elim (Bool-cases (value_of b == raw)) [
      | inl same ↦ cc ((==_iff (value_of b) raw).0 same, rw (same, entry_with) at h)
      | inr other ↦ entry_with-value value_of raw entries a text (rw (other, entry_with) at h)
    ]

is_known_method_sound : (raw : ℕ) (m : Method) → is_known_method raw ≡ some m → number m ≡ raw
unfolding is_known_method
is_known_method_sound raw m h = go (entry_with number raw methods) refl
  where
    go : (named : Option (Method × Bytes)) → entry_with number raw methods ≡ named → number m ≡ raw
    go (some (n, text)) found =
        ap number (sym (cc (rw (found, is_known_method) at h)))
        ∙ entry_with-value number raw methods n text found
    go none absent = last (entry_with number raw nameless) refl
      where
        last :
            (other : Option (Method × Bytes))
            → entry_with number raw nameless ≡ other
            → number m ≡ raw
        last none missing = absurd (cc (rw missing at (rw (absent, is_known_method) at h)))
        last (some (n, text)) found =
            ap number (sym (cc (rw found at (rw (absent, is_known_method) at h))))
            ∙ entry_with-value number raw nameless n text found

short-value : (i : ℤ) (n : ℕ) → short i ≡ some n → i ≡ pos n
short-value (negsuc k) n h = absurd (cc (h))
short-value (pos k) n h = elim (Bool-cases (ltb 0xFFFF k)) [
  | inl large ↦ absurd (cc (rw large at h))
  | inr fits ↦ cc (rw fits at h)
]

is_protocol-value : (i : ℤ) → is_protocol i ≡ true → i ≡ pos 1
is_protocol-value (negsuc k) h = absurd (cc (h))
is_protocol-value (pos k) h = ap pos ((==_iff k 1).0 h)

module _ (L : JsonLibrary) (law : Json.IsLawful L) where
  -- The document says that it is a request of this protocol, and the request is what it says.
  pub record IsAccepted (json : L.Json) (r : Request L) : Type 0 where
    pub is_object : L.is_object json ≡ true
    pub kind : type_of L json ≡ codes "request"
    pub protocol : get L (L.as_signed 32) json (codes "protocol" ∷ []) (pos 0) ≡ pos 1
    pub method :
        get L (L.as_signed 32) json (codes "method" ∷ []) (negsuc 0) ≡ pos (number r.method)
    pub id : get L (L.as_unsigned 64) json (codes "id" ∷ []) 0 ≡ r.id
    pub present : (r.id == 0) ≡ false
    pub params : L.is_object r.params ≡ true

  -- Of a request, its id, its method and that its parameters are an object.
  abbrev IsMade : ℕ → Method → Request L → Type 0
  IsMade id m r = (r.id ≡ id) × (r.method ≡ m) × (L.is_object r.params ≡ true)

  with_params-IsMade :
      (json : L.Json) (id : ℕ) (m : Method) (r : Request L)
      → with_params L json id m ≡ value r
      → IsMade id m r
  unfolding with_params
  with_params-IsMade json id m r h = go (L.member json (codes "params")) refl
    where
      go : (field : Option L.Json) → L.member json (codes "params") ≡ field → IsMade id m r
      go none absent =
          let made : Request L = record { id = id; method = m; params = L.object [] } in
          let same : made ≡ r = cc (rw (absent, with_params) at h) in
          subst (IsMade id m) same (refl, refl, law.is_object-object [])
      go (some params) found = elim (Bool-cases (L.is_object params)) [
        | inl fine ↦
            let made : Request L = record { id = id; method = m; params = params } in
            let same : made ≡ r = cc (rw fine at (rw (found, with_params) at h)) in
            subst (IsMade id m) same (refl, refl, fine)
        | inr other ↦ absurd (cc (rw other at (rw (found, with_params) at h)))
      ]

  -- Every request that `decodeRequest` returns has an id other than 0, parameters that are an object, and
  -- the method whose number the document has; the document is an object of type "request" that speaks
  -- protocol 1.
  pub decode_request-IsAccepted :
      (json : L.Json) (r : Request L) → decode_request L json ≡ value r → IsAccepted json r
  unfolding decode_request
  decode_request-IsAccepted json r h = elim (Bool-cases (L.is_object json)) [
    | inr other ↦ absurd (cc (rw (other, decode_request) at h))
    | inl object ↦ elim (Bool-cases (equal (type_of L json) (codes "request"))) [
      | inr other ↦ absurd (cc (rw other at (rw (object, decode_request) at h)))
      | inl kind ↦
          elim (Bool-cases
            (is_protocol (get L (L.as_signed 32) json (codes "protocol" ∷ []) (pos 0)))) [
              | inr other ↦
                  absurd (cc (rw other at (rw kind at (rw (object, decode_request) at h))))
              | inl protocol ↦
                  numbered object kind protocol
                    (short (get L (L.as_signed 32) json (codes "method" ∷ []) (negsuc 0))) refl
            ]
    ]
  ]
    where
      numbered :
          L.is_object json ≡ true
          → equal (type_of L json) (codes "request") ≡ true
          → is_protocol (get L (L.as_signed 32) json (codes "protocol" ∷ []) (pos 0)) ≡ true
          → (n : Option ℕ)
          → short (get L (L.as_signed 32) json (codes "method" ∷ []) (negsuc 0)) ≡ n
          → IsAccepted json r
      numbered object kind protocol none reads =
          absurd (cc (rw reads at (rw protocol at (rw kind at (rw (object, decode_request) at h)))))
      numbered object kind protocol (some n) reads = known (is_known_method n) refl
        where
          known : (method : Option Method) → is_known_method n ≡ method → IsAccepted json r
          known none found = absurd (
              cc (
                rw found at
                  (rw reads at (rw protocol at (rw kind at (rw (object, decode_request) at h))))))
          known (some m) found =
              elim (Bool-cases (get L (L.as_unsigned 64) json (codes "id" ∷ []) 0 == 0)) [
                | inl zero_id ↦ absurd (
                    cc (
                      rw zero_id at (
                        rw found at (
                          rw reads at
                            (rw protocol at (rw kind at (rw (object, decode_request) at h)))))))
                | inr present ↦
                    let made =
                      with_params-IsMade json (get L (L.as_unsigned 64) json (codes "id" ∷ []) 0) m
                        r
                        (rw present at (
                          rw found at (
                            rw reads at
                              (rw protocol at (rw kind at (rw (object, decode_request) at h)))))) in
                    record {
                      is_object = object;
                      kind = (equal_iff (type_of L json) (codes "request")).0 kind;
                      protocol = is_protocol-value _ protocol;
                      method =
                          short-value _ n reads
                          ∙ ap pos (sym (is_known_method_sound n m found) ∙ ap number (sym made.1));
                      id = sym made.0;
                      present = ap (λ k. k == 0) made.0 ∙ present;
                      params = made.2;
                    }
              ]

-- ===== src/Transport/Signaling/Answers.antt =====
-- What an exchange with the backend yields.
use pipecat_voice_assistant.Prelude.{
  ℕ, ◌≡◌, ◌↔◌, refl, ap, ◌∙◌, Bool, true, false, not, Option, none, some, [], ◌∷◌, Bytes, codes,
  if_elim, arith,
}
use pipecat_voice_assistant.Hal.NvsKv.{c_str}
use pipecat_voice_assistant.Hal.HttpsClient.{HttpLib, HttpRequest, HttpResponse, http_post, request}
use pipecat_voice_assistant.Transport.Signaling.{
  JsonLib, Signaling, OfferResponse, is_empty, is_success, offer_fields, take_offer, read_offer,
  read_response, empty_response, post_offer, send_offer,
}

module _ (json : JsonLib) where
  open json use {Json, parse, get_object_item, string_value, array_items, print_strings}

  abbrev pub member : Json → Bytes → Option Bytes
  member root key = string_value (get_object_item (some root) key)

  -- The request that an offer posts, if its body could be printed.
  abbrev pub offer_request : Signaling → Bytes → HttpRequest
  offer_request s body = record {
    url = s.offer_url;
    method = http_post;
    body = body;
    content_type = codes "application/json";
  }

  abbrev pub offer_body : Bytes → Option Bytes
  offer_body local_sdp =
      print_strings ((codes "type", codes "offer") ∷ (codes "sdp", c_str local_sdp) ∷ [])

  -- An answer that the client gives out: how it came about.
  pub record IsAnswer (http : HttpLib) (cap : ℕ) (s : Signaling) (local_sdp : Bytes)
      (out : OfferResponse) (s' : Signaling) : Type 0 where
    pub body : Bytes
    pub printed : offer_body local_sdp ≡ some body
    pub exchanged : (request http cap empty_response (offer_request s body)).0 ≡ true
    pub success :
        is_success (request http cap empty_response (offer_request s body)).1.status ≡ true
    pub root : Json
    pub parsed :
        parse (c_str (request http cap empty_response (offer_request s body)).1.body) ≡ some root
    pub sdp : member root (codes "sdp") ≡ some out.remote_sdp
    pub pc_id : member root (codes "pc_id") ≡ some out.pc_id
    pub some_sdp : is_empty out.remote_sdp ≡ false
    pub some_pc_id : is_empty out.pc_id ≡ false
    pub remembered : s' ≡ record s { pc_id = out.pc_id }

  Taken : Signaling → Option Bytes → Option Bytes → OfferResponse → Signaling → Type 0
  Taken s a b out s' =
      (a ≡ some out.remote_sdp)
      × (b ≡ some out.pc_id)
      × (is_empty out.remote_sdp ≡ false)
      × (is_empty out.pc_id ≡ false)
      × (s' ≡ record s { pc_id = out.pc_id })

  take_offer-some :
      (s : Signaling) (a b : Option Bytes) (out : OfferResponse)
      → (take_offer s (offer_fields a b)).1 ≡ some out
      → Taken s a b out (take_offer s (offer_fields a b)).0
  unfolding take_offer offer_fields Taken
  take_offer-some s none b out e = cc
  take_offer-some s (some x) none out e = cc
  take_offer-some s (some x) (some y) out e = ground arith

  take_offer-Taken :
      (s s' : Signaling) (a b : Option Bytes) (out : OfferResponse)
      → Taken s a b out s'
      → take_offer s (offer_fields a b) ≡ (record s { pc_id = out.pc_id }, some out)
  unfolding take_offer offer_fields Taken
  take_offer-Taken s s' a b out (ea, eb, na, nb, same) = rw (ea, eb, na, nb) refl

  -- What a response must hold for its offer to be taken.
  record Accepted (s : Signaling) (r : Bool × HttpResponse) (out : OfferResponse) (s' : Signaling)
      : Type 0 where
    ok : r.0 ≡ true
    success : is_success r.1.status ≡ true
    root : Json
    parsed : parse (c_str r.1.body) ≡ some root
    taken : Taken s (member root (codes "sdp")) (member root (codes "pc_id")) out s'

  read_offer-some :
      (s : Signaling) (o : Option Json) (out : OfferResponse)
      → (read_offer json s o).1 ≡ some out
      → (root : Json) × (o ≡ some root)
        × Taken s
            (member root (codes "sdp"))
            (member root (codes "pc_id"))
            out
            (read_offer json s o).0
  unfolding read_offer
  read_offer-some s none out e = cc
  read_offer-some s (some root) out e = (root, refl, take_offer-some s _ _ out e)

  read_response-Accepted :
      (s : Signaling) (r : Bool × HttpResponse) (out : OfferResponse)
      → (read_response json s r).1 ≡ some out
      → Accepted s r out (read_response json s r).0
  unfolding read_response
  read_response-Accepted s (false, resp) out = λ e. cc
  read_response-Accepted s (true, resp) out =
      if_elim
        (λ (x : Signaling × Option OfferResponse). x.1 ≡ some out → Accepted s (true, resp) out x.0)
        (not (is_success resp.status)) (λ _ e. cc)
        (λ fine e.
          let (root, parsed, taken) = read_offer-some s (parse (c_str resp.body)) out e in
          record { ok = refl; success = ground arith; root = root; parsed = parsed; taken = taken })

  post_offer-IsAnswer :
      (http : HttpLib) (cap : ℕ) (s : Signaling) (local_sdp : Bytes) (out : OfferResponse)
      (o : Option Bytes)
      → offer_body local_sdp ≡ o
      → (post_offer json http cap s o).1 ≡ some out
      → IsAnswer http cap s local_sdp out (post_offer json http cap s o).0
  unfolding post_offer Taken
  post_offer-IsAnswer http cap s local_sdp out none printed e = cc
  post_offer-IsAnswer http cap s local_sdp out (some body) printed e =
      let a =
        read_response-Accepted s (request http cap empty_response (offer_request s body)) out e in
      let (sdp, pc_id, some_sdp, some_pc_id, same) = a.taken in
      record {
        body = body;
        printed = printed;
        exchanged = a.ok;
        success = a.success;
        root = a.root;
        parsed = a.parsed;
        sdp = sdp;
        pc_id = pc_id;
        some_sdp = some_sdp;
        some_pc_id = some_pc_id;
        remembered = same;
      }

  read_response-good :
      (s : Signaling) (r : Bool × HttpResponse) (root : Json)
      → r.0 ≡ true
      → is_success r.1.status ≡ true
      → parse (c_str r.1.body) ≡ some root
      → read_response json s r ≡ read_offer json s (some root)
  unfolding read_response
  read_response-good s (false, resp) root ok success parsed = cc
  read_response-good s (true, resp) root ok success parsed = rw (success, parsed) refl

  -- The client gives out an answer exactly when the body of the offer could be printed, the exchange
  -- succeeded with a status of 2xx, and the response parsed to an object whose two members are
  -- strings that are not empty; it then remembers the connection's name.
  pub send_offer-IsAnswer :
      (http : HttpLib) (cap : ℕ) (s : Signaling) (local_sdp : Bytes) (out : OfferResponse)
      → ((send_offer json http cap s local_sdp).1 ≡ some out)
        ↔ IsAnswer http cap s local_sdp out (send_offer json http cap s local_sdp).0
  unfolding send_offer
  send_offer-IsAnswer http cap s local_sdp out = (
    post_offer-IsAnswer http cap s local_sdp out (offer_body local_sdp) refl,
    λ h.
        let second : Signaling × Option OfferResponse → Option OfferResponse = λ x. x.1 in
        unfold post_offer read_offer Taken in
        (ap (λ (o : Option Bytes). (post_offer json http cap s o).1) h.printed
          ∙ ap second (
              read_response-good s (request http cap empty_response (offer_request s h.body)) h.root
                h.exchanged h.success h.parsed)
          ∙ ap second (
              take_offer-Taken s (send_offer json http cap s local_sdp).0 _ _ out
                (h.sdp, h.pc_id, h.some_sdp, h.some_pc_id, h.remembered))),
  )

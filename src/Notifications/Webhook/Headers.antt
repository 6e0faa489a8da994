-- ===== src/Notifications/Webhook/Headers.antt =====
-- What leaves the program for a webhook.
use unifi_netwatcher.Notifications.Ssrf.{
  Network, ResolvedWebhookTarget, resolve_webhook_target, pinned_request_url,
}
use unifi_netwatcher.Base.{
  Bool-cases, length, take, All, length-take, length-filter-le, All-filter_self, In, Text, t,
  text_eq, eq_of_text_eq, text_in, has_char, ok, ◌+◌, ◌≤◌, ◌≡◌, refl, sym, ap, ◌⊎◌, inl, inr, true,
  false, not, List, [], ◌∷◌, arith,
}
use unifi_netwatcher.Library.Ip.{IpLibrary}
use unifi_netwatcher.Notifications.Webhook.{
  is_dropped, sanitize_headers, header_items, fields_or_empty, allow_private_of, allowed_methods,
  max_json_body_bytes,
}
use unifi_netwatcher.Notifications.Outbound.{Outbound, HttpRequest}
use unifi_netwatcher.Notifications.Values.{set_header, str_of}
use unifi_netwatcher.Models.Values.{Json, Fields, get}
use unifi_netwatcher.Library.Url.{Url}
use unifi_netwatcher.Notifications.Ssrf.Targets.{IsSafeTarget}
use mathlib.Core.Path.{subst}

-- A header as it was configured, within its limits and with no line break.
abbrev pub IsCleanHeader : Text × Text → Type 0
IsCleanHeader (key, value) =
    (length key ≤ 128)
    × (length value ≤ 1024)
    × (has_char 13 key ≡ false)
    × (has_char 10 key ≡ false)
    × (has_char 13 value ≡ false)
    × (has_char 10 value ≡ false)

-- A header that may be sent.
abbrev pub IsAllowedHeader : Text → Text × Text → Type 0
IsAllowedHeader hostname h =
    IsCleanHeader h ⊎ (h ≡ (t "Host", hostname)) ⊎ (h ≡ (t "Content-Type", t "application/json"))

-- A request that may be made.
pub record IsPinned (ip : IpLibrary) (net : Network) (out : Outbound) (config : Fields)
    (request : HttpRequest) : Type 0 where
  pub target : ResolvedWebhookTarget
  pub parsed : Url
  pub resolved :
      resolve_webhook_target ip net
        (str_of out.show_json (get config (t "url")))
        (allow_private_of ip net out config)
      ≡ ok target
  pub of_url : net.urlparse (str_of out.show_json (get config (t "url"))) ≡ ok parsed
  pub safe : IsSafeTarget ip target
  pub pinned : request.url ≡ pinned_request_url target parsed
  pub sni : request.sni_hostname ≡ target.hostname
  pub method : text_in request.method allowed_methods ≡ true
  pub headers : All (IsAllowedHeader target.hostname) request.headers
  pub host : In (t "Host", target.hostname) request.headers
  pub few_headers : length request.headers ≤ 22
  pub small : length request.content ≤ max_json_body_bytes

dropped-clean : (h : Text × Text) → not (is_dropped h) ≡ true → IsCleanHeader h
unfolding is_dropped
dropped-clean (key, value) q =
    (ground arith, ground arith, ground arith, ground arith, ground arith, ground arith)

pub sanitize-clean : (show : Json → Text) (v : Json) → All IsCleanHeader (sanitize_headers show v)
unfolding sanitize_headers
sanitize-clean show v =
    All-filter_self IsCleanHeader (λ h. not (is_dropped h))
      (take 20 (header_items show (fields_or_empty v))) dropped-clean

pub length-sanitize : (show : Json → Text) (v : Json) → length (sanitize_headers show v) ≤ 20
unfolding sanitize_headers
length-sanitize show v = omega (
  arith,
  length-filter-le {0} (λ h. not (is_dropped h)) (take 20 (header_items show (fields_or_empty v))),
  length-take {0} 20 (header_items show (fields_or_empty v)),
)

pub All-set_header :
    (P : Text × Text → Type 0) (key value : Text) (hs : List (Text × Text))
    → P (key, value)
    → All P hs
    → All P (set_header key value hs)
unfolding set_header
All-set_header P key value [] h a = (h, tt)
All-set_header P key value ((k, v) ∷ rest) h a = elim (Bool-cases (text_eq k key)) [
  | inl e ↦ rw e (subst (λ x. P (x, value)) (sym (eq_of_text_eq k key e)) h, a.1)
  | inr e ↦ rw e (a.0, All-set_header P key value rest h a.1)
]

-- The header is there.
pub In-set_header_self :
    (key value : Text) (hs : List (Text × Text)) → In (key, value) (set_header key value hs)
unfolding set_header
In-set_header_self key value [] = inl refl
In-set_header_self key value ((k, v) ∷ rest) = elim (Bool-cases (text_eq k key)) [
  | inl e ↦ rw e (inl (ap (λ x. (x, value)) (sym (eq_of_text_eq k key e))))
  | inr e ↦ rw e (inr (In-set_header_self key value rest))
]

-- The others stay.
pub In-set_header_ne :
    (key value : Text) (h : Text × Text) (hs : List (Text × Text))
    → text_eq h.0 key ≡ false
    → In h hs
    → In h (set_header key value hs)
unfolding set_header
In-set_header_ne key value h [] n m = elim m [ ]
In-set_header_ne key value h ((k, v) ∷ rest) n m = elim (Bool-cases (text_eq k key)) [
  | inl e ↦ elim m [ inl q ↦ absurd (ground (arith, n, e, q)) | inr q ↦ rw e (inr q) ]
  | inr e ↦ elim m [
    | inl q ↦ rw e (inl q)
    | inr q ↦ rw e (inr (In-set_header_ne key value h rest n q))
  ]
]

pub length-set_header :
    (key value : Text) (hs : List (Text × Text)) → length (set_header key value hs) ≤ length hs + 1
unfolding set_header
length-set_header key value [] = omega arith
length-set_header key value ((k, v) ∷ rest) = elim (Bool-cases (text_eq k key)) [
  | inl e ↦ rw e (omega arith)
  | inr e ↦ rw e (omega (arith, length-set_header key value rest))
]

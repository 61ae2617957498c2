-- ===== src/Rpc/Client.antt =====
-- src/rpc.rs: `resolve_client_ip`.
use aomori.Prelude.{
  ℕ, ◌≡◌, refl, Bool, true, false, Option, none, some, List, [], ◌∷◌, ◌++◌, All, if◌then◌else◌,
  ◌==◌, ap, ◌∙◌, and_then,
}

-- The part that the next comma ends, and the parts in front of it.
abbrev put : ℕ → List (List ℕ) → List (List ℕ)
put byte [] = (byte ∷ []) ∷ []
put byte (part ∷ parts) = (byte ∷ part) ∷ parts

-- `split(',')`
unfoldable pub split : List ℕ → List (List ℕ)
split [] = [] ∷ []
split (byte ∷ bytes) =
    let parts = split bytes in if byte == b',' then [] ∷ parts else put byte parts

abbrev reverse_onto {ℓ} : {A : Type ℓ} → List A → List A → List A
reverse_onto [] ys = ys
reverse_onto (x ∷ xs) ys = reverse_onto xs (x ∷ ys)

-- `rsplit(',')`: the parts, the last one first.
abbrev pub rsplit : List ℕ → List (List ℕ)
rsplit bytes = reverse_onto (split bytes) []

-- The addresses, `value.trim().parse::<IpAddr>()`, the set of the trusted proxies, and whether
-- `HeaderValue::to_str` takes a line for text, which it then returns as it is.
module _ {Ip : Type 0} (parse : List ℕ → Option Ip) (is_trusted : Ip → Bool)
    (is_text : List ℕ → Bool) where
  -- The loop over the header from the right: an address that is no trusted proxy, or what stands in
  -- front of a part that is no address, is the client.
  unfoldable pub walk : Ip → List (List ℕ) → Ip
  walk client_ip [] = client_ip
  walk client_ip (value ∷ values) = elim (parse value) [
    | none ↦ client_ip
    | some forwarded_ip ↦
        let further = walk forwarded_ip values in
        if is_trusted forwarded_ip then further else forwarded_ip
  ]

  -- `headers.get("x-forwarded-for")`: the first of the lines with that name.
  abbrev pub first_line : List (List ℕ) → Option (List ℕ)
  first_line [] = none
  first_line (line ∷ lines) = some line

  -- `value.to_str().ok()`
  abbrev pub to_str : List ℕ → Option (List ℕ)
  to_str line = if is_text line then some line else none

  abbrev pub from_header : Ip → Option (List ℕ) → Ip
  from_header peer none = peer
  from_header peer (some forwarded) = walk peer (rsplit forwarded)

  -- `headers` has the bytes of the lines `x-forwarded-for`, in the order of the request.
  unfoldable pub resolve_client_ip : Option Ip → List (List ℕ) → Option Ip
  resolve_client_ip none headers = none
  resolve_client_ip (some peer) headers =
      let forwarded = from_header peer (and_then (first_line headers) to_str) in
      some (if is_trusted peer then forwarded else peer)

  walk-stops :
      (client ip : Ip) (value : List ℕ) (proxies written : List (List ℕ))
      → All (λ v. (p : Ip) × (parse v ≡ some p) × (is_trusted p ≡ true)) proxies
      → parse value ≡ some ip
      → is_trusted ip ≡ false
      → walk client (proxies ++ value ∷ written) ≡ ip
  unfolding walk
  walk-stops client ip value [] written h parsed stranger = rw parsed (rw stranger refl)
  walk-stops client ip value (v ∷ proxies) written ((p, is_p, trusted), h) parsed stranger =
      rw is_p (rw trusted (walk-stops p ip value proxies written h parsed stranger))

  -- Behind a trusted peer, with a first header line that ends in a chain of trusted proxies behind an
  -- address that is none: that address is the client, whatever addresses stand in front of it and on
  -- further lines, if the whole line is text. If a byte anywhere in the line, in what the client wrote
  -- too, makes it no text, the peer is taken for the client.
  pub resolve_client_ip-first_stranger :
      (peer ip : Ip) (line value : List ℕ) (lines proxies written : List (List ℕ))
      → is_trusted peer ≡ true
      → rsplit line ≡ proxies ++ value ∷ written
      → All (λ v. (p : Ip) × (parse v ≡ some p) × (is_trusted p ≡ true)) proxies
      → parse value ≡ some ip
      → is_trusted ip ≡ false
      → resolve_client_ip (some peer) (line ∷ lines) ≡ some (if is_text line then ip else peer)
  unfolding resolve_client_ip
  resolve_client_ip-first_stranger peer ip line value lines proxies written trusted parts h parsed
        stranger =
      rw trusted (ap some (read (is_text line)))
    where
      read :
          (b : Bool) → from_header peer (if b then some line else none) ≡ (if b then ip else peer)
      read true = ap (walk peer) parts ∙ walk-stops peer ip value proxies written h parsed stranger
      read false = refl

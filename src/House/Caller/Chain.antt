-- ===== src/House/Caller/Chain.antt =====
-- internal/house/house.go: nobody but a trusted proxy names the caller.
use mathlib.Core.List.{reverse, reverse_aux, reverse-append, reverse-cons, append_assoc}
use curtilage.Prelude.{◌≡◌, refl, ap, ◌∙◌, true, false, List, [], ◌∷◌, ◌++◌, some, Text, All, map}
use curtilage.Strings.{split, trim_space}
use curtilage.House.Caller.{Net, in_any, chain_of, walk, peer_of, caller, allowed}

reverse-All {ℓ κ} :
    {A : Type ℓ} (P : A → Type κ) (xs ys : List A) → All P xs → All P ys → All P (reverse_aux xs ys)
reverse-All P [] ys a b = b
reverse-All P (x ∷ xs) ys a b = reverse-All P xs (x ∷ ys) a.1 (a.0, b)

abbrev pub flatten {ℓ} : {A : Type ℓ} → List (List A) → List A
flatten [] = []
flatten (x ∷ xs) = x ++ flatten xs

module _ {Ip Block : Type 0} (net : Net Ip Block) (proxies : List Block) where
  -- The hop is the address of a trusted proxy.
  abbrev pub IsTrusted : Text → Type 0
  IsTrusted hop =
      (ip : Ip) × (net.parse_ip (trim_space hop) ≡ some ip) × (in_any net ip proxies ≡ true)

  -- The hop is the address `ip`, of nobody who is trusted.
  abbrev pub IsClient : Text → Ip → Type 0
  IsClient hop ip = (net.parse_ip (trim_space hop) ≡ some ip) × (in_any net ip proxies ≡ false)

  walk_past :
      (peer : Ip) (hops rest : List Text)
      → All IsTrusted hops
      → walk net proxies peer (hops ++ rest) ≡ walk net proxies peer rest
  unfolding walk
  walk_past peer [] rest a = refl
  walk_past peer (hop ∷ hops) rest ((ip, parsed, held), a) =
      rw (parsed, held) (walk_past peer hops rest a)

  walk_client :
      (peer ip : Ip) (client : Text) (rest : List Text)
      → IsClient client ip
      → walk net proxies peer (client ∷ rest) ≡ some ip
  unfolding walk
  walk_client peer ip client rest c = rw (walk, c.0, c.1) refl

  reversed :
      (xs hops : List Text) (client : Text)
      → reverse (xs ++ client ∷ hops) ≡ reverse hops ++ (client ∷ reverse xs)
  reversed xs hops client =
      reverse-append xs (client ∷ hops)
      ∙ ap (λ ys. ys ++ reverse xs) (reverse-cons client hops)
      ∙ append_assoc (reverse hops) (client ∷ []) (reverse xs)

  walk_seen :
      (peer ip : Ip) (xs hops : List Text) (client : Text)
      → IsClient client ip
      → All IsTrusted hops
      → walk net proxies peer (reverse (xs ++ client ∷ hops)) ≡ some ip
  walk_seen peer ip xs hops client c a =
      ap (walk net proxies peer) (reversed xs hops client)
      ∙ walk_past peer (reverse hops) (client ∷ reverse xs) (reverse-All IsTrusted hops [] a tt)
      ∙ walk_client peer ip client (reverse xs) c

  chain_of-flatten : (values : List Text) → chain_of net values ≡ flatten (map (split 44) values)
  unfolding chain_of
  chain_of-flatten [] = refl
  chain_of-flatten (v ∷ vs) = ap (λ xs. split 44 v ++ xs) (chain_of-flatten vs)

  caller_seen :
      (remote_addr : Text) (peer ip : Ip) (values front hops : List Text) (client : Text)
      → peer_of net remote_addr ≡ some peer
      → in_any net peer proxies ≡ true
      → chain_of net values ≡ front ++ client ∷ hops
      → IsClient client ip
      → All IsTrusted hops
      → caller net proxies remote_addr values ≡ some ip
  unfolding caller
  caller_seen remote_addr peer ip values front hops client p t s c a =
      rw (caller, p, t)
        (ap (λ xs. walk net proxies peer (reverse xs)) s ∙ walk_seen peer ip front hops client c a)

  -- Behind a trusted peer, the caller is the address that the outermost of the trusted proxies saw,
  -- and it alone decides: whatever hops a client puts before that, and however the header's hops
  -- are spread over its values, the request is let in if and only if one of the allowed nets holds
  -- that address.
  pub allowed_seen :
      (nets : List Block) (remote_addr : Text) (peer ip : Ip) (values front hops : List Text)
      (client : Text)
      → peer_of net remote_addr ≡ some peer
      → in_any net peer proxies ≡ true
      → flatten (map (split 44) values) ≡ front ++ client ∷ hops
      → IsClient client ip
      → All IsTrusted hops
      → allowed net nets proxies remote_addr values ≡ in_any net ip nets
  unfolding allowed in_any
  allowed_seen [] remote_addr peer ip values front hops client p t s c a = refl
  allowed_seen (n ∷ ns) remote_addr peer ip values front hops client p t s c a =
      rw
        (
          allowed,
          caller_seen remote_addr peer ip values front hops client p t (chain_of-flatten values ∙ s)
              c a,
        )
        refl

-- ===== src/Session/Banner.antt =====
-- The text of `fill_connect_data` (src/adbd/adb.c) is what `parse_banner` takes apart.
use adbd.Base.{subst, Bool, true, not, ◌&&◌}
use adbd.Base.{
  some, ℕ, zero, suc, ◌≡◌, refl, sym, ap, ◌∙◌, false, [], ◌∷◌, ◌++◌, append-nil, append_assoc,
  arith, Bytes, codes, All, ◌==◌, ==_iff,
}
use adbd.Session.{Env, connect_text}
use adbd.Transport.{
  Transport, c_string, bytes_eq, split_at, tokens, qual, set_property, apply_property,
  apply_properties, properties_of, behind_second, state_of, parse_banner,
}

-- The byte does not stand in it.
abbrev pub Lacks : ℕ → Bytes → Type 0
Lacks c = All (λ b. (b == c) ≡ false)

Lacks-append : (c : ℕ) (xs ys : Bytes) → Lacks c xs → Lacks c ys → Lacks c (xs ++ ys)
Lacks-append c [] ys h k = k
Lacks-append c (x ∷ xs) ys (h, hs) k = (h, Lacks-append c xs ys hs k)

split_at-Lacks :
    (c : ℕ) (s rest : Bytes) → Lacks c s → split_at c (s ++ (c ∷ rest)) ≡ (s, some rest)
unfolding split_at
split_at-Lacks c [] rest h = rw ((==_iff c c).1 refl) refl
split_at-Lacks c (b ∷ s) rest (h, hs) = rw (h, split_at-Lacks c s rest hs) refl

tokens-Lacks :
    (c x : ℕ) (cur s rest : Bytes)
    → Lacks c s
    → tokens c (x ∷ cur) (s ++ (c ∷ rest)) ≡ (x ∷ (cur ++ s)) ∷ tokens c [] rest
unfolding tokens
tokens-Lacks c x cur [] rest h = rw ((==_iff c c).1 refl, append-nil) refl
tokens-Lacks c x cur (b ∷ s) rest (h, hs) = rw (h) (
    tokens-Lacks c x (cur ++ (b ∷ [])) s rest hs
    ∙ ap (λ u. (x ∷ u) ∷ tokens c [] rest) (append_assoc cur (b ∷ []) s))

c_string-Lacks : (s rest : Bytes) → Lacks 0 s → c_string (s ++ (0 ∷ rest)) ≡ s
unfolding c_string
c_string-Lacks [] rest h = refl
c_string-Lacks (zero ∷ s) rest (h, hs) = absurd (ground arith)
c_string-Lacks (suc c ∷ s) rest (h, hs) = ap (◌∷◌ (suc c)) (c_string-Lacks s rest hs)

-- The same, tested.
abbrev lacks : ℕ → Bytes → Bool
lacks c [] = true
lacks c (b ∷ s) = not (b == c) && lacks c s

Lacks-test : (c : ℕ) (s : Bytes) → lacks c s ≡ true → Lacks c s
Lacks-test c [] h = tt
Lacks-test c (b ∷ s) h = (ground arith, Lacks-test c s (ground arith))

-- Texts that no byte of the banner's grammar stands in.
pub record IsPlain (e : Env) : Type 0 where
  pub banner : Lacks b':' e.banner × Lacks 0 e.banner
  pub product : Lacks b';' e.product × Lacks 0 e.product
  pub model : Lacks b';' e.model × Lacks 0 e.model
  pub device : Lacks b';' e.device × Lacks 0 e.device

-- A property of the text, from its key's first letter on.
property-token :
    (key value rest : Bytes)
    → Lacks b';' key
    → Lacks b';' value
    → tokens b';' (b'r' ∷ []) (key ++ (b'=' ∷ (value ++ (b';' ∷ rest))))
      ≡ (b'r' ∷ (key ++ (b'=' ∷ value))) ∷ tokens b';' [] rest
property-token key value rest hk hv =
    ap (tokens b';' (b'r' ∷ [])) (sym (append_assoc key (b'=' ∷ value) (b';' ∷ rest)))
    ∙ tokens-Lacks b';' b'r' [] (key ++ (b'=' ∷ value)) rest
        (Lacks-append b';' key (b'=' ∷ value) hk (refl, hv))

property_text : Bytes → Bytes → Bytes → Bytes
property_text key value rest = key ++ (b'=' ∷ (value ++ (b';' ∷ rest)))

module _ (e : Env) (plain : IsPlain e) where
  props : Bytes
  props =
      codes "ro.product.name="
      ++ (e.product
          ++ (codes ";"
              ++ (codes "ro.product.model="
                  ++ (e.model
                      ++ (codes ";" ++ (codes "ro.product.device=" ++ (e.device ++ codes ";")))))))

  props-tokens :
      tokens b';' [] props
      ≡ (codes "ro.product.name=" ++ e.product)
        ∷ (codes "ro.product.model=" ++ e.model)
        ∷ (codes "ro.product.device=" ++ e.device)
        ∷ []
  unfolding tokens props
  props-tokens =
      property-token (codes "o.product.name") e.product _
        (Lacks-test b';' (codes "o.product.name") refl) plain.product.0
      ∙ ap (◌∷◌ (codes "ro.product.name=" ++ e.product)) (
          property-token (codes "o.product.model") e.model _
            (Lacks-test b';' (codes "o.product.model") refl) plain.model.0
          ∙ ap (◌∷◌ (codes "ro.product.model=" ++ e.model)) (
              property-token (codes "o.product.device") e.device []
                (Lacks-test b';' (codes "o.product.device") refl) plain.device.0))

  -- What the other side knows of the device.
  abbrev pub known : Transport → Transport
  known t = record t {
    connection_state = state_of e.banner;
    product = qual e.product;
    model = qual e.model;
    device = qual e.device;
  }

  props-known :
      (t : Transport)
      → properties_of (some props) t
        ≡ record t { product = qual e.product; model = qual e.model; device = qual e.device }
  unfolding properties_of apply_properties apply_property set_property bytes_eq
  props-known t = rw props-tokens refl

  text_shape : connect_text e ≡ e.banner ++ (b':' ∷ (b':' ∷ props))
  text_shape = unfold connect_text in (unfold props in refl)

  props-Lacks : Lacks 0 props
  unfolding props
  props-Lacks =
      Lacks-append 0 (codes "ro.product.name=") _ (Lacks-test 0 (codes "ro.product.name=") refl) (
        Lacks-append 0 e.product _ plain.product.1 (
          refl,
          Lacks-append 0 (codes "ro.product.model=") _
              (Lacks-test 0 (codes "ro.product.model=") refl)
              (Lacks-append 0 e.model _ plain.model.1 (
                refl,
                Lacks-append 0 (codes "ro.product.device=") _
                    (Lacks-test 0 (codes "ro.product.device=") refl)
                    (Lacks-append 0 e.device _ plain.device.1 (refl, tt)),
              )),
        ))

  -- For a device whose texts have no zero byte, a banner without a colon and values without a
  -- semicolon: the text that `send_connect` puts in its CNXN packet, parsed as the receiver does,
  -- gives the state that the banner names and the product, model and device, and changes nothing
  -- else of the transport.
  pub parse_banner-connect_text :
      (t : Transport) → parse_banner (c_string (connect_text e ++ (0 ∷ []))) t ≡ known t
  unfolding parse_banner behind_second split_at
  parse_banner-connect_text t =
      ap (λ s. parse_banner s t)
        (c_string-Lacks (connect_text e) [] (
            subst (Lacks 0) (sym text_shape) (
              Lacks-append 0 e.banner (b':' ∷ (b':' ∷ props)) plain.banner.1
                (refl, (refl, props-Lacks))))
          ∙ text_shape)
      ∙ rw (split_at-Lacks b':' e.banner (b':' ∷ props) plain.banner.0) (rw (props-known t) refl)

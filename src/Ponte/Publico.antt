-- ===== src/Ponte/Publico.antt =====
-- cmd/ponte/main.go, ehPublico: which addresses are refused, as intervals.
use greenlabs_server.Comum.{
  ℕ, ◌+◌, ◌*◌, ◌<◌, ◌≡◌, refl, Bool, true, false, not, ◌&&◌, ◌||◌, List, [], ◌∷◌, ◌++◌, leb, arith,
}
use greenlabs_server.Comum.Texto.{eq_texto}
use greenlabs_server.Ponte.Endereco.{
  para_4, is_loopback, is_private, is_link_local_unicast, is_link_local_multicast,
  is_interface_local_multicast, is_multicast, is_unspecified, faixa_contem, em_alguma,
  prefixo_mapeado, eh_publico,
}

-- An IPv4 address as a number, and the intervals that are not the open internet.
abbrev pub numero : ℕ → ℕ → ℕ → ℕ → ℕ
numero a b c d = ((a * 256 + b) * 256 + c) * 256 + d

abbrev pub entre : ℕ → ℕ → ℕ → Bool
entre de ate n = leb de n && leb n ate

-- No interval of the list has the number.
abbrev pub fora_de : List (ℕ × ℕ) → ℕ → Bool
fora_de [] n = true
fora_de ((de, ate) ∷ xs) n = not (entre de ate n) && fora_de xs n

-- The networks that are not the open internet, by their first and last addresses.
abbrev pub internas : List (ℕ × ℕ)
internas =
    (numero 127 0 0 0, numero 127 255 255 255)
    ∷ (numero 10 0 0 0, numero 10 255 255 255)
    ∷ (numero 172 16 0 0, numero 172 31 255 255)
    ∷ (numero 192 168 0 0, numero 192 168 255 255)
    ∷ (numero 169 254 0 0, numero 169 254 255 255)
    ∷ (numero 224 0 0 0, numero 239 255 255 255)
    ∷ (numero 0 0 0 0, numero 0 0 0 0)
    ∷ (numero 100 64 0 0, numero 100 127 255 255)
    ∷ (numero 192 0 0 0, numero 192 0 0 255)
    ∷ (numero 192 0 2 0, numero 192 0 2 255)
    ∷ (numero 198 18 0 0, numero 198 19 255 255)
    ∷ (numero 198 51 100 0, numero 198 51 100 255)
    ∷ (numero 203 0 113 0, numero 203 0 113 255)
    ∷ (numero 240 0 0 0, numero 255 255 255 255)
    ∷ []

-- Boolean steps.
not-or : (x y : Bool) → not (x || y) ≡ (not x && not y)
not-or true y = refl
not-or false y = refl

and_assoc : (x y z : Bool) → ((x && y) && z) ≡ (x && (y && z))
and_assoc true y z = refl
and_assoc false y z = refl

absorve : (m n r : Bool) → (m ≡ true → n ≡ true) → (not m && (not n && r)) ≡ (not n && r)
absorve false n r k = refl
absorve true n r k = rw (k refl)

-- 224.0.0.0/24 lies in 224.0.0.0/4.
absorve_local :
    (n : ℕ) (r : Bool)
    → (not (entre (numero 224 0 0 0) (numero 224 0 0 255) n)
        && (not (entre (numero 224 0 0 0) (numero 239 255 255 255) n) && r))
      ≡ (not (entre (numero 224 0 0 0) (numero 239 255 255 255) n) && r)
absorve_local n r =
    absorve (entre (numero 224 0 0 0) (numero 224 0 0 255) n)
      (entre (numero 224 0 0 0) (numero 239 255 255 255) n) r (λ e. ground arith)

module _ (a b c d : ℕ) (ha : a < 256) (hb : b < 256) (hc : c < 256) (hd : d < 256) where
  loopback-entre :
      is_loopback (a ∷ b ∷ c ∷ d ∷ [])
      ≡ entre (numero 127 0 0 0) (numero 127 255 255 255) (numero a b c d)
  unfolding is_loopback para_4
  loopback-entre = ground arith

  private-entre : is_private (a ∷ b ∷ c ∷ d ∷ []) ≡ (
      entre (numero 10 0 0 0) (numero 10 255 255 255) (numero a b c d)
      || (entre (numero 172 16 0 0) (numero 172 31 255 255) (numero a b c d)
          || entre (numero 192 168 0 0) (numero 192 168 255 255) (numero a b c d)))
  unfolding is_private para_4
  private-entre = ground arith

  local-entre :
      is_link_local_unicast (a ∷ b ∷ c ∷ d ∷ [])
      ≡ entre (numero 169 254 0 0) (numero 169 254 255 255) (numero a b c d)
  unfolding is_link_local_unicast para_4
  local-entre = ground arith

  multicast_local-entre :
      is_link_local_multicast (a ∷ b ∷ c ∷ d ∷ [])
      ≡ entre (numero 224 0 0 0) (numero 224 0 0 255) (numero a b c d)
  unfolding is_link_local_multicast para_4
  multicast_local-entre = ground arith

  multicast-entre :
      is_multicast (a ∷ b ∷ c ∷ d ∷ [])
      ≡ entre (numero 224 0 0 0) (numero 239 255 255 255) (numero a b c d)
  unfolding is_multicast para_4
  multicast-entre = ground arith

  unspecified-entre :
      is_unspecified (a ∷ b ∷ c ∷ d ∷ []) ≡ entre (numero 0 0 0 0) (numero 0 0 0 0) (numero a b c d)
  unfolding is_unspecified para_4 eq_texto
  unspecified-entre = ground arith

  cgnat-entre :
      faixa_contem (record { rede = 100 ∷ 64 ∷ 0 ∷ 0 ∷ []; tamanho = 10 }) (a ∷ b ∷ c ∷ d ∷ [])
      ≡ entre (numero 100 64 0 0) (numero 100 127 255 255) (numero a b c d)
  unfolding faixa_contem para_4 eq_texto
  cgnat-entre = ground arith

  ietf-entre :
      faixa_contem (record { rede = 192 ∷ 0 ∷ 0 ∷ 0 ∷ []; tamanho = 24 }) (a ∷ b ∷ c ∷ d ∷ [])
      ≡ entre (numero 192 0 0 0) (numero 192 0 0 255) (numero a b c d)
  unfolding faixa_contem para_4 eq_texto
  ietf-entre = ground arith

  documentacao-entre :
      faixa_contem (record { rede = 192 ∷ 0 ∷ 2 ∷ 0 ∷ []; tamanho = 24 }) (a ∷ b ∷ c ∷ d ∷ [])
      ≡ entre (numero 192 0 2 0) (numero 192 0 2 255) (numero a b c d)
  unfolding faixa_contem para_4 eq_texto
  documentacao-entre = ground arith

  benchmark-entre :
      faixa_contem (record { rede = 198 ∷ 18 ∷ 0 ∷ 0 ∷ []; tamanho = 15 }) (a ∷ b ∷ c ∷ d ∷ [])
      ≡ entre (numero 198 18 0 0) (numero 198 19 255 255) (numero a b c d)
  unfolding faixa_contem para_4 eq_texto
  benchmark-entre = ground arith

  documentacao_2-entre :
      faixa_contem (record { rede = 198 ∷ 51 ∷ 100 ∷ 0 ∷ []; tamanho = 24 }) (a ∷ b ∷ c ∷ d ∷ [])
      ≡ entre (numero 198 51 100 0) (numero 198 51 100 255) (numero a b c d)
  unfolding faixa_contem para_4 eq_texto
  documentacao_2-entre = ground arith

  documentacao_3-entre :
      faixa_contem (record { rede = 203 ∷ 0 ∷ 113 ∷ 0 ∷ []; tamanho = 24 }) (a ∷ b ∷ c ∷ d ∷ [])
      ≡ entre (numero 203 0 113 0) (numero 203 0 113 255) (numero a b c d)
  unfolding faixa_contem para_4 eq_texto
  documentacao_3-entre = ground arith

  reservado-entre :
      faixa_contem (record { rede = 240 ∷ 0 ∷ 0 ∷ 0 ∷ []; tamanho = 4 }) (a ∷ b ∷ c ∷ d ∷ [])
      ≡ entre (numero 240 0 0 0) (numero 255 255 255 255) (numero a b c d)
  unfolding faixa_contem para_4 eq_texto
  reservado-entre = ground arith

  interface_local-4 : is_interface_local_multicast (a ∷ b ∷ c ∷ d ∷ []) ≡ false
  unfolding is_interface_local_multicast
  interface_local-4 = refl

  -- An IPv4 address of four bytes is public exactly if, as a number, it lies in none of fourteen
  -- intervals, which are the loopback, private, link-local, multicast, CGNAT, documentation,
  -- benchmark and reserved networks and 0.0.0.0.
  pub eh_publico-fora_de : eh_publico (a ∷ b ∷ c ∷ d ∷ []) ≡ fora_de internas (numero a b c d)
  unfolding eh_publico em_alguma
  eh_publico-fora_de =
      rw
        (
          loopback-entre, private-entre, local-entre, multicast_local-entre, multicast-entre,
          unspecified-entre, interface_local-4, cgnat-entre, ietf-entre, documentacao-entre,
          benchmark-entre, documentacao_2-entre, documentacao_3-entre, reservado-entre,
        )
        (simp (not-or, and_assoc, absorve_local) refl)

-- An IPv4 address written in 16 bytes is judged like the one in 4.
pub eh_publico-mapeado :
    (a b c d : ℕ)
    → eh_publico (prefixo_mapeado ++ (a ∷ b ∷ c ∷ d ∷ [])) ≡ eh_publico (a ∷ b ∷ c ∷ d ∷ [])
unfolding eh_publico em_alguma is_loopback is_private is_link_local_unicast is_link_local_multicast
    is_interface_local_multicast is_multicast is_unspecified para_4 faixa_contem eq_texto
eh_publico-mapeado a b c d = refl

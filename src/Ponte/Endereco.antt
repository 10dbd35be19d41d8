-- ===== src/Ponte/Endereco.antt =====
-- cmd/ponte/main.go, ehPublico, with what it uses of Go's package net. An IP is its 4 or 16 bytes.
use greenlabs_server.Comum.{
  ℕ, zero, suc, ◌-◌, ◌%◌, ◌^◌, Bool, true, false, not, ◌&&◌, ◌||◌, Option, none, some, List, [],
  ◌∷◌, ◌++◌, leb, ◌==◌, if◌then◌else◌, length, take, drop,
}
use greenlabs_server.Comum.Texto.{Texto, codes, eq_texto, vazio}

-- strings.IndexByte and LastIndexByte.
unfoldable pub index_byte : Texto → ℕ → Option ℕ
index_byte [] c = none
index_byte (x ∷ xs) c =
    let resto = index_byte xs c in
    if x == c then some 0 else elim resto [ none ↦ none | some i ↦ some (suc i) ]

unfoldable pub last_index_byte : Texto → ℕ → Option ℕ
last_index_byte [] c = none
last_index_byte (x ∷ xs) c = elim (last_index_byte xs c) [
  | some i ↦ some (suc i)
  | none ↦ if x == c then some 0 else none
]

abbrev pub ha_byte : Texto → ℕ → Bool
ha_byte s c = elim (index_byte s c) [ none ↦ false | some i ↦ true ]

-- The last checks of net.SplitHostPort: `j` and `k` are where a bracket would be unexpected.
unfoldable pub sem_colchetes : Texto → Texto → ℕ → ℕ → ℕ → Option (Texto × Texto)
sem_colchetes s host i j k =
    if ha_byte (drop j s) b'[' || ha_byte (drop k s) b']' then none else some (host, drop (suc i) s)

-- net.SplitHostPort: `i` is the last colon.
unfoldable pub split_host_port : Texto → Option (Texto × Texto)
split_host_port s = elim (last_index_byte s b':') [
  | none ↦ none
  | some i ↦
      if eq_texto (take 1 s) (codes "[")
      then elim (index_byte s b']') [
        | none ↦ none
        | some fim ↦
            if suc fim == i then sem_colchetes s (take (fim - 1) (drop 1 s)) i 1 (suc fim) else none
      ]
      else if ha_byte (take i s) b':'
      then none
      else sem_colchetes s (take i s) i 0 0
]

-- net.JoinHostPort.
unfoldable pub join_host_port : Texto → Texto → Texto
join_host_port host porta =
    if ha_byte host b':'
    then codes "[" ++ (host ++ (codes "]:" ++ porta))
    else host ++ (codes ":" ++ porta)

-- The ten zeros and two 0xff before an IPv4 address in 16 bytes.
abbrev pub prefixo_mapeado : List ℕ
prefixo_mapeado = 0 ∷ 0 ∷ 0 ∷ 0 ∷ 0 ∷ 0 ∷ 0 ∷ 0 ∷ 0 ∷ 0 ∷ 255 ∷ 255 ∷ []

-- IP.To4.
unfoldable pub para_4 : List ℕ → Option (List ℕ)
para_4 ip =
    if length ip == 4
    then some ip
    else if (length ip == 16) && eq_texto (take 12 ip) prefixo_mapeado
    then some (drop 12 ip)
    else none

-- The bytes of an address that the tests below read.
abbrev pub byte : ℕ → List ℕ → ℕ
byte n [] = 0
byte zero (b ∷ bs) = b
byte (suc n) (b ∷ bs) = byte n bs

-- The `n` high bits of a byte.
abbrev pub bits_altos : ℕ → ℕ → ℕ
bits_altos n b = b - b % 2 ^ (8 - n)

abbrev zeros : ℕ → List ℕ
zeros zero = []
zeros (suc n) = 0 ∷ zeros n

-- The tests of IP by their methods' names: first on 4 bytes, then on 16.
abbrev pub por_versao : (List ℕ → Bool) → (List ℕ → Bool) → List ℕ → Bool
por_versao de_4 de_16 ip = elim (para_4 ip) [
  | some ip4 ↦ de_4 ip4
  | none ↦ (length ip == 16) && de_16 ip
]

unfoldable pub is_loopback : List ℕ → Bool
is_loopback = por_versao (λ ip. byte 0 ip == 127) (λ ip. eq_texto ip (zeros 15 ++ (1 ∷ [])))

unfoldable pub is_private : List ℕ → Bool
is_private =
    por_versao
      (λ ip.
        (byte 0 ip == 10)
        || ((byte 0 ip == 172) && (bits_altos 4 (byte 1 ip) == 16))
        || ((byte 0 ip == 192) && (byte 1 ip == 168)))
      (λ ip. bits_altos 7 (byte 0 ip) == 0xfc)

unfoldable pub is_link_local_unicast : List ℕ → Bool
is_link_local_unicast =
    por_versao (λ ip. (byte 0 ip == 169) && (byte 1 ip == 254))
      (λ ip. (byte 0 ip == 0xfe) && (bits_altos 2 (byte 1 ip) == 0x80))

unfoldable pub is_link_local_multicast : List ℕ → Bool
is_link_local_multicast =
    por_versao (λ ip. (byte 0 ip == 224) && (byte 1 ip == 0) && (byte 2 ip == 0))
      (λ ip. (byte 0 ip == 0xff) && (byte 1 ip % 16 == 2))

-- Only of 16 bytes.
unfoldable pub is_interface_local_multicast : List ℕ → Bool
is_interface_local_multicast ip = (length ip == 16) && (byte 0 ip == 0xff) && (byte 1 ip % 16 == 1)

unfoldable pub is_multicast : List ℕ → Bool
is_multicast = por_versao (λ ip. bits_altos 4 (byte 0 ip) == 0xe0) (λ ip. byte 0 ip == 0xff)

unfoldable pub is_unspecified : List ℕ → Bool
is_unspecified = por_versao (λ ip. eq_texto ip (zeros 4)) (λ ip. eq_texto ip (zeros 16))

-- A network as net.ParseCIDR gives it.
pub record Faixa : Type 0 where
  pub rede : List ℕ
  pub tamanho : ℕ

-- The address under the mask of `n` bits.
abbrev pub mascarado : ℕ → List ℕ → List ℕ
mascarado n [] = []
mascarado n (b ∷ bs) = (if leb 8 n then b else bits_altos n b) ∷ mascarado (n - 8) bs

-- IPNet.Contains, for a network of 4 bytes.
unfoldable pub faixa_contem : Faixa → List ℕ → Bool
faixa_contem f ip = elim (para_4 ip) [
  | none ↦ false
  | some ip4 ↦ eq_texto (mascarado f.tamanho ip4) f.rede
]

abbrev pub faixas_recusadas : List Faixa
faixas_recusadas =
    (record { rede = 100 ∷ 64 ∷ 0 ∷ 0 ∷ []; tamanho = 10 })
    ∷ (record { rede = 192 ∷ 0 ∷ 0 ∷ 0 ∷ []; tamanho = 24 })
    ∷ (record { rede = 192 ∷ 0 ∷ 2 ∷ 0 ∷ []; tamanho = 24 })
    ∷ (record { rede = 198 ∷ 18 ∷ 0 ∷ 0 ∷ []; tamanho = 15 })
    ∷ (record { rede = 198 ∷ 51 ∷ 100 ∷ 0 ∷ []; tamanho = 24 })
    ∷ (record { rede = 203 ∷ 0 ∷ 113 ∷ 0 ∷ []; tamanho = 24 })
    ∷ (record { rede = 240 ∷ 0 ∷ 0 ∷ 0 ∷ []; tamanho = 4 })
    ∷ []

unfoldable pub em_alguma : List Faixa → List ℕ → Bool
em_alguma [] ip = false
em_alguma (f ∷ fs) ip = faixa_contem f ip || em_alguma fs ip

-- A nil IP is no bytes.
unfoldable pub eh_publico : List ℕ → Bool
eh_publico ip =
    not (
      vazio ip
      || is_loopback ip
      || is_private ip
      || is_link_local_unicast ip
      || is_link_local_multicast ip
      || is_interface_local_multicast ip
      || is_multicast ip
      || is_unspecified ip)
    && not (em_alguma faixas_recusadas ip)

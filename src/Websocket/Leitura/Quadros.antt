-- ===== src/Websocket/Leitura/Quadros.antt =====
-- src/websocket.go: lerQuadro on what a client that follows RFC 6455 sends, and on anything else.
use Prim.Native.Nat.{bit_and}
use greenlabs_server.Comum.{
  ℕ, zero, suc, ◌+◌, ◌^◌, ◌≤◌, ◌<◌, ◌≡◌, refl, ap, ◌∙◌, inl, inr, Bool, true, false, not, List, [],
  ◌∷◌, ◌++◌, leb, if◌then◌else◌, length, get_or, arith, All, length-append, take-append_length,
  drop-append_length, append_assoc, Bool-cases, subst,
}
use greenlabs_server.Comum.Bits.{
  IsByte, low_bits, low_nibble, top_bit, middle_bits, xor_twice, xor-IsByte,
}
use greenlabs_server.Websocket.{Rede, rede_fechada, ok, tamanho_maximo_mensagem}
use greenlabs_server.Websocket.Escrita.{be16, be64}
use greenlabs_server.Websocket.Leitura.{
  ◌>>◌, exigir, ler_cheio, be, ler_tamanho, desmascarar, ler_corpo, conferir, ler_aberta,
  ler_quadro,
}

-- The socket with `xs` still to be read.
abbrev pub lendo : Rede → List ℕ → Rede
lendo r xs = record r { entrada = xs }

pub ler_cheio_lem :
    (n : ℕ) (xs ys : List ℕ) (r : Rede)
    → length xs ≡ n
    → ler_cheio n (lendo r (xs ++ ys)) ≡ ok (xs, lendo r ys)
unfolding ler_cheio
ler_cheio_lem n xs ys r e =
    subst (λ (k : ℕ). ler_cheio k (lendo r (xs ++ ys)) ≡ ok (xs, lendo r ys)) e
      (ground (arith, length-append xs ys, take-append_length xs ys, drop-append_length xs ys))

pub be-be16 : (n : ℕ) → n < 2 ^ 16 → be 0 (be16 n) ≡ n
unfolding be be16
be-be16 n h = omega arith

pub be-be64 : (n : ℕ) → n < 2 ^ 64 → be 0 (be64 n) ≡ n
unfolding be be64
be-be64 n h = omega arith

get_or-IsByte : (m : List ℕ) (i : ℕ) → All IsByte m → get_or m i 0 < 256
get_or-IsByte [] i h = omega arith
get_or-IsByte (b ∷ m) zero h = h.0
get_or-IsByte (b ∷ m) (suc i) h = get_or-IsByte m i h.1

pub length-desmascarar :
    (m : List ℕ) (i : ℕ) (ds : List ℕ) → length (desmascarar m i ds) ≡ length ds
unfolding desmascarar
length-desmascarar m i [] = refl
length-desmascarar m i (d ∷ ds) = ap suc (length-desmascarar m (i + 1) ds)

-- Masking is its own inverse on bytes, and gives bytes.
pub desmascarar_twice :
    (m : List ℕ) (i : ℕ) (ds : List ℕ)
    → All IsByte m
    → All IsByte ds
    → desmascarar m i (desmascarar m i ds) ≡ ds
unfolding desmascarar
desmascarar_twice m i [] hm hd = refl
desmascarar_twice m i (d ∷ ds) hm hd = cc (
  xor_twice d (get_or m (bit_and i 3) 0) hd.0 (get_or-IsByte m (bit_and i 3) hm),
  desmascarar_twice m (i + 1) ds hm hd.1,
)

pub desmascarar-IsByte :
    (m : List ℕ) (i : ℕ) (ds : List ℕ)
    → All IsByte m
    → All IsByte ds
    → All IsByte (desmascarar m i ds)
unfolding desmascarar
desmascarar-IsByte m i [] hm hd = tt
desmascarar-IsByte m i (d ∷ ds) hm hd = (
  xor-IsByte d (get_or m (bit_and i 3) 0) hd.0 (get_or-IsByte m (bit_and i 3) hm),
  desmascarar-IsByte m (i + 1) ds hm hd.1,
)

-- A frame as RFC 6455 lays it out for a client: FIN and opcode, the mask bit with the length in one
-- of its three forms, the mask, the masked payload.
unfoldable pub campo : ℕ → ℕ
campo n = if leb n 125 then n else if leb n 0xffff then 126 else 127

unfoldable pub extensao : ℕ → List ℕ
extensao n = if leb n 125 then [] else if leb n 0xffff then be16 n else be64 n

unfoldable pub quadro_cliente : Bool → ℕ → List ℕ → List ℕ → List ℕ
quadro_cliente fim opcode mascara dados =
    ((if fim then 128 else 0) + opcode)
    ∷ (128 + campo (length dados))
    ∷ (extensao (length dados) ++ (mascara ++ desmascarar mascara 0 dados))

-- What the client has to keep to: four mask bytes, bytes for payload, at most 1 MiB, an opcode of
-- four bits, and a control frame is whole and short.
pub record IsQuadro (fim : Bool) (opcode : ℕ) (mascara dados : List ℕ) : Type 0 where
  pub opcode_cabe : opcode < 16
  pub controle : 8 ≤ opcode → (fim ≡ true) × (length dados ≤ 125)
  pub mascara_bytes : All IsByte mascara
  pub mascara_quatro : length mascara ≡ 4
  pub dados_bytes : All IsByte dados
  pub cabe : length dados ≤ tamanho_maximo_mensagem

ler_corpo_lem :
    (m ds ys : List ℕ) (r : Rede)
    → length m ≡ 4
    → All IsByte m
    → All IsByte ds
    → ler_corpo (length ds) (lendo r ((m ++ desmascarar m 0 ds) ++ ys)) ≡ ok (ds, lendo r ys)
unfolding ler_corpo
ler_corpo_lem m ds ys r e hm hd = rw (
  append_assoc m (desmascarar m 0 ds) ys,
  ler_cheio_lem 4 m (desmascarar m 0 ds ++ ys) r e,
  ler_cheio_lem (length ds) (desmascarar m 0 ds) ys r (length-desmascarar m 0 ds),
  desmascarar_twice m 0 ds hm hd,
)

conferir_lem :
    (fim : Bool) (opcode n : ℕ)
    → opcode < 16
    → n < 128
    → (8 ≤ opcode → (fim ≡ true) × (n ≤ 125))
    → conferir ((if fim then 128 else 0) + opcode) (128 + n)
      ≡ ok (record { fim = fim; opcode = opcode; mascarado = true; tamanho = n })
unfolding conferir
conferir_lem true opcode n ho hn hc = ground (
  arith,
  low_nibble (128 + opcode),
  top_bit (128 + opcode),
  middle_bits (128 + opcode),
  low_bits (128 + n),
  top_bit (128 + n),
)
conferir_lem false opcode n ho hn hc = ground (
  arith,
  low_nibble (0 + opcode),
  top_bit (0 + opcode),
  middle_bits (0 + opcode),
  low_bits (128 + n),
  top_bit (128 + n),
)

ler_tamanho_lem :
    (n : ℕ) (ys : List ℕ) (r : Rede)
    → n < 2 ^ 64
    → ler_tamanho (campo n) (lendo r (extensao n ++ ys)) ≡ ok (n, lendo r ys)
unfolding ler_tamanho campo extensao
ler_tamanho_lem n ys r h = elim (Bool-cases (leb n 125)) [
  | inl a ↦ rw a (ground arith)
  | inr a ↦ rw a (elim (Bool-cases (leb n 0xffff)) [
    | inl b ↦
        rw b (rw (ler_cheio_lem 2 (be16 n) ys r (unfold be16 in refl), be-be16 n (ground arith)))
    | inr b ↦ rw b (rw (ler_cheio_lem 8 (be64 n) ys r (unfold be64 in refl), be-be64 n h))
  ])
]

campo-lt : (n : ℕ) → campo n < 128
unfolding campo
campo-lt n = ground arith

campo_controle : (n : ℕ) → n ≤ 125 → campo n ≤ 125
unfolding campo
campo_controle n h = ground arith

le→leb : (a b : ℕ) → a ≤ b → leb a b ≡ true
le→leb a b h = ground arith

ler_aberta-quadro_cliente :
    (fim : Bool) (opcode : ℕ) (m ds ys : List ℕ) (r : Rede)
    → IsQuadro fim opcode m ds
    → ler_aberta (lendo r (quadro_cliente fim opcode m ds ++ ys))
      ≡ ok (record { fim = fim; opcode = opcode; dados = ds }, lendo r ys)
unfolding ler_aberta quadro_cliente
ler_aberta-quadro_cliente fim opcode m ds ys r v =
    let n : ℕ = length ds in
    let ext : List ℕ = extensao n in
    let corpo : List ℕ = m ++ desmascarar m 0 ds in
    let cab : List ℕ = ((if fim then 128 else 0) + opcode) ∷ (128 + campo n) ∷ [] in
    rw (
      append_assoc ext corpo ys,
      ler_cheio_lem 2 cab (ext ++ (corpo ++ ys)) r refl,
      conferir_lem fim opcode (campo n) v.opcode_cabe (campo-lt n)
          (λ c. ((v.controle c).0, campo_controle n (v.controle c).1)),
      ler_tamanho_lem n (corpo ++ ys) r (omega (arith, v.cabe)),
      le→leb n tamanho_maximo_mensagem v.cabe,
      ler_corpo_lem m ds ys r v.mascara_quatro v.mascara_bytes v.dados_bytes,
    )

aberta : (r : Rede) → r.fechada ≡ false → ler_quadro r ≡ ler_aberta r
unfolding ler_quadro
aberta r f = ap (λ (b : Bool). exigir (not b) rede_fechada >> ler_aberta r) f

-- lerQuadro, on an open socket, reads any frame that keeps to the RFC and has at most 1 MiB of
-- payload, in each of the three forms of the length, with the payload unmasked, and leaves the bytes
-- behind it.
pub ler_quadro-quadro_cliente :
    (fim : Bool) (opcode : ℕ) (m ds ys : List ℕ) (r : Rede)
    → r.fechada ≡ false
    → IsQuadro fim opcode m ds
    → ler_quadro (lendo r (quadro_cliente fim opcode m ds ++ ys))
      ≡ ok (record { fim = fim; opcode = opcode; dados = ds }, lendo r ys)
ler_quadro-quadro_cliente fim opcode m ds ys r f v =
    aberta (lendo r (quadro_cliente fim opcode m ds ++ ys)) f
    ∙ ler_aberta-quadro_cliente fim opcode m ds ys r v

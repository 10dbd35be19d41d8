-- ===== src/Carga/IdaVolta.antt =====
-- ferramentas/carga/main.go against src/websocket.go: each side reads what the other one writes.
use Prim.Native.Nat.{bit_and}
use greenlabs_server.Comum.{
  ℕ, zero, suc, ◌+◌, ◌^◌, ◌≤◌, ◌<◌, ◌≡◌, ◌≢◌, refl, ◌∙◌, false, List, [], ◌∷◌, ◌++◌, leb, ◌==◌,
  length, length-append, arith, All, append_assoc, Bool-cases, inl, inr,
}
use greenlabs_server.Comum.Bits.{set_top_bit, low_bits, low_nibble}
use greenlabs_server.Websocket.{QuadroSaida, Rede, ok, op_texto, op_fechar}
use greenlabs_server.Websocket.Escrita.{be16, be64, cabecalho, bytes_do_quadro}
use greenlabs_server.Websocket.Escrita.Entrega.{na_linha}
use greenlabs_server.Websocket.Leitura.Quadros.{
  lendo, campo, extensao, ler_cheio_lem, be-be16, be-be64,
}
use greenlabs_server.Carga.{tamanho_recebido, receber_quadro, receber_laco, receber}

tamanho_recebido_lem :
    (n : ℕ) (ys : List ℕ) (r : Rede)
    → n < 2 ^ 64
    → tamanho_recebido (campo n) (lendo r (extensao n ++ ys)) ≡ ok (n, lendo r ys)
unfolding tamanho_recebido campo extensao
tamanho_recebido_lem n ys r h = elim (Bool-cases (leb n 125)) [
  | inl a ↦ rw a (ground arith)
  | inr a ↦ rw a (elim (Bool-cases (leb n 0xffff)) [
    | inl b ↦
        rw b (rw (ler_cheio_lem 2 (be16 n) ys r (unfold be16 in refl), be-be16 n (ground arith)))
    | inr b ↦ rw b (rw (ler_cheio_lem 8 (be64 n) ys r (unfold be64 in refl), be-be64 n h))
  ])
]

cabecalho_lem : (op n : ℕ) → op < 128 → cabecalho op n ≡ (op + 128) ∷ campo n ∷ extensao n
unfolding cabecalho campo extensao
cabecalho_lem op n h = ground (arith, set_top_bit op)

campo-lt : (n : ℕ) → campo n < 128
unfolding campo
campo-lt n = ground arith

receber_quadro-bytes_do_quadro :
    (q : QuadroSaida) (ys : List ℕ) (r : Rede)
    → q.opcode < 16
    → length q.dados < 2 ^ 64
    → receber_quadro (lendo r (bytes_do_quadro q ++ ys)) ≡ ok (q.opcode, q.dados, lendo r ys)
unfolding receber_quadro bytes_do_quadro
receber_quadro-bytes_do_quadro q ys r ho hn =
    let n : ℕ = length q.dados in
    let cab : List ℕ = (q.opcode + 128) ∷ campo n ∷ [] in
    let op : bit_and (q.opcode + 128) 0x0f ≡ q.opcode =
      low_nibble (q.opcode + 128) (omega arith) ∙ omega arith in
    let c : bit_and (campo n) 0x7f ≡ campo n =
      low_bits (campo n) (omega (arith, campo-lt n)) ∙ omega (arith, campo-lt n) in
    rw (
      cabecalho_lem q.opcode n (omega arith),
      append_assoc (extensao n) q.dados ys,
      ler_cheio_lem 2 cab (extensao n ++ (q.dados ++ ys)) r refl,
      c,
      tamanho_recebido_lem n (q.dados ++ ys) r hn,
      ler_cheio_lem n q.dados ys r refl,
      op,
    )

-- A frame that `receber` passes over.
abbrev pub IsControle : QuadroSaida → Type 0
IsControle q =
    (q.opcode < 16) × (q.opcode ≢ op_texto) × (q.opcode ≢ op_fechar) × (length q.dados < 2 ^ 64)

receber_laco_controle :
    (n : ℕ) (q : QuadroSaida) (ys : List ℕ) (r : Rede)
    → IsControle q
    → receber_laco (suc n) (lendo r (bytes_do_quadro q ++ ys)) ≡ receber_laco n (lendo r ys)
unfolding receber_laco
receber_laco_controle n q ys r (h, a, b, l) =
    let t : (q.opcode == 0x1) ≡ false = ground arith in
    let u : (q.opcode == 0x8) ≡ false = ground arith in
    rw (receber_quadro-bytes_do_quadro q ys r h l, receber_laco) (rw (t, u))

receber_laco_texto :
    (n : ℕ) (texto ys : List ℕ) (r : Rede)
    → length texto < 2 ^ 64
    → receber_laco
        (suc n)
        (lendo r (bytes_do_quadro (record { opcode = op_texto; dados = texto }) ++ ys))
      ≡ ok (texto, lendo r ys)
unfolding receber_laco
receber_laco_texto n texto ys r l =
    rw
      (
        receber_quadro-bytes_do_quadro (record { opcode = op_texto; dados = texto }) ys r
            (omega arith) l,
        receber_laco,
      )
      refl

receber_laco_pula :
    (antes : List QuadroSaida) (n : ℕ) (texto ys : List ℕ) (r : Rede)
    → All IsControle antes
    → length texto < 2 ^ 64
    → length antes < n
    → receber_laco n (
        lendo r
          (na_linha antes ++ (bytes_do_quadro (record { opcode = op_texto; dados = texto }) ++ ys)))
      ≡ ok (texto, lendo r ys)
unfolding na_linha
receber_laco_pula [] zero texto ys r hs l h = elim h [ ]
receber_laco_pula (q ∷ qs) zero texto ys r hs l h = elim h [ ]
receber_laco_pula [] (suc n) texto ys r hs l h = receber_laco_texto n texto ys r l
receber_laco_pula (q ∷ qs) (suc n) texto ys r hs l h =
    let resto : List ℕ = bytes_do_quadro (record { opcode = op_texto; dados = texto }) ++ ys in
    rw (append_assoc (bytes_do_quadro q) (na_linha qs) resto) (
      receber_laco_controle n q (na_linha qs ++ resto) r hs.0
      ∙ receber_laco_pula qs n texto ys r hs.1 l (omega arith))

length-na_linha : (qs : List QuadroSaida) → length qs ≤ length (na_linha qs)
unfolding na_linha bytes_do_quadro cabecalho
length-na_linha [] = omega arith
length-na_linha (q ∷ qs) =
    omega (arith, length-na_linha qs, length-append (bytes_do_quadro q) (na_linha qs))

-- The client's `receber` returns exactly the text that the server's writer framed, whatever pings
-- and pongs were written before it, and leaves what follows it.
pub receber-bytes_do_quadro :
    (antes : List QuadroSaida) (texto ys : List ℕ) (r : Rede)
    → All IsControle antes
    → length texto < 2 ^ 64
    → receber (
        lendo r
          (na_linha antes ++ (bytes_do_quadro (record { opcode = op_texto; dados = texto }) ++ ys)))
      ≡ ok (texto, lendo r ys)
unfolding receber
receber-bytes_do_quadro antes texto ys r hs l =
    let resto : List ℕ = bytes_do_quadro (record { opcode = op_texto; dados = texto }) ++ ys in
    receber_laco_pula antes (suc (length (na_linha antes ++ resto))) texto ys r hs l
      (omega (arith, length-append (na_linha antes) resto, length-na_linha antes))

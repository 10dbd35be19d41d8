-- ===== src/Carga.antt =====
-- ferramentas/carga/main.go: the client of the load meter, which speaks the other side of the
-- WebSocket. Its socket is a `Rede` of the server's model: `entrada` is what it will read, and
-- `enviado` what it wrote. Connecting, the flags, the goroutines and the printed figures are left
-- out.
pub mod Conexao
pub mod IdaVolta
mod Exemplos
use Prim.Native.Nat.{bit_and, bit_or, bit_xor}
use greenlabs_server.Comum.{
  ℕ, zero, suc, ◌+◌, ◌%◌, Bool, true, false, List, [], ◌∷◌, ◌++◌, leb, ◌==◌, if◌then◌else◌, length,
  get_or,
}
use greenlabs_server.Websocket.{Rede, Resultado, ok, err, eof, sem_combustivel}
use greenlabs_server.Websocket.Escrita.{be16, be64}
use greenlabs_server.Websocket.Leitura.{◌>>=◌, ler_cheio, be}

abbrev pub mascara : List ℕ
mascara = 0x11 ∷ 0x22 ∷ 0x33 ∷ 0x44 ∷ []

-- `append(quadro, b^mascara[i&3])` for each byte from position `i` on.
unfoldable pub mascarar : ℕ → List ℕ → List ℕ
mascarar i [] = []
mascarar i (b ∷ bs) = bit_xor b (get_or mascara (bit_and i 3) 0) ∷ mascarar (i + 1) bs

-- The frame that `enviar` writes.
unfoldable pub quadro_enviado : List ℕ → List ℕ
unfolding be16 be64 mascarar
quadro_enviado texto =
    let tamanho = length texto in
    0x81
    ∷ ((if leb tamanho 125
          then (bit_or 0x80 tamanho % 256) ∷ []
          else if leb tamanho 0xffff
          then bit_or 0x80 126 ∷ be16 tamanho
          else bit_or 0x80 127 ∷ be64 tamanho)
        ++ (mascara ++ mascarar 0 texto))

-- The three forms of the length of a frame of the server.
unfoldable pub tamanho_recebido : ℕ → Rede → Resultado (ℕ × Rede)
unfolding ler_cheio be
tamanho_recebido t r =
    if t == 126
    then (do (ext, r') ← ler_cheio 2 r; ok (be 0 ext, r'))
    else if t == 127
    then (do (ext, r') ← ler_cheio 8 r; ok (be 0 ext, r'))
    else ok (t, r)

-- One frame, as a round of `receber` reads it: its opcode and its payload.
unfoldable pub receber_quadro : Rede → Resultado (ℕ × List ℕ × Rede)
receber_quadro r = do
  (cab, r1) ← ler_cheio 2 r
  (tamanho, r2) ← tamanho_recebido (bit_and (get_or cab 1 0) 0x7f) r1
  (dados, r3) ← ler_cheio tamanho r2
  ok (bit_and (get_or cab 0 0) 0x0f, dados, r3)

-- The loop of `receber`: text is returned, close ends the stream, all else is skipped.
unfoldable pub receber_laco : ℕ → Rede → Resultado (List ℕ × Rede)
receber_laco zero r = err sem_combustivel
receber_laco (suc n) r = elim (receber_quadro r) [
  | err e ↦ err e
  | ok (opcode, dados, r') ↦
      (let resto = receber_laco n r' in
        elim (opcode == 0x1) [
          | true ↦ ok (dados, r')
          | false ↦ elim (opcode == 0x8) [ true ↦ err eof | false ↦ resto ]
        ])
]

unfoldable pub receber : Rede → Resultado (List ℕ × Rede)
unfolding receber_laco
receber r = receber_laco (suc (length r.entrada)) r

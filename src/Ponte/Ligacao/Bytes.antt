-- ===== src/Ponte/Ligacao/Bytes.antt =====
-- cmd/ponte/main.go, copiar: the bytes that arrive on either side.
use greenlabs_server.Comum.{
  ℕ, min, ◌≡◌, refl, sym, ap, ◌∙◌, Bool, true, false, Option, none, some, List, [], ◌∷◌, ◌++◌,
  append_assoc, if◌then◌else◌, if_cases, take, drop, take-append-drop, arith,
}
use greenlabs_server.Comum.Texto.{vazio}
use greenlabs_server.Ponte.Ligacao.{
  Situacao, copiando, leitura_acabou, escrita_falhou, Lado, Rodada, tamanho_do_buffer,
  escrever_bloco, rodada, Ligacao, ligar, Copia, comeca, vai, volta_uma, fecha,
}

-- What the destination got is the front of the stream, and until a write fails nothing is missing
-- between it and what the origin is still going to send.
abbrev pub Fiel : List ℕ → List ℕ → List ℕ → Situacao → Type 0
Fiel todo recebido por_ler copiando = recebido ++ por_ler ≡ todo
Fiel todo recebido por_ler leitura_acabou = recebido ++ por_ler ≡ todo
Fiel todo recebido por_ler escrita_falhou = (resto : List ℕ) × (recebido ++ resto ≡ todo)

abbrev pub IsFiel : List ℕ → Lado → Type 0
IsFiel todo l = Fiel todo l.recebido l.por_ler l.situacao

acabou-Fiel :
    (todo recebido por_ler : List ℕ) (b : Bool)
    → recebido ++ por_ler ≡ todo
    → Fiel todo recebido por_ler (if b then leitura_acabou else copiando)
acabou-Fiel todo recebido por_ler true e = e
acabou-Fiel todo recebido por_ler false e = e

bloco_todo :
    (n : ℕ) (recebido por_ler : List ℕ)
    → (recebido ++ take n por_ler) ++ drop n por_ler ≡ recebido ++ por_ler
bloco_todo n recebido por_ler =
    append_assoc recebido (take n por_ler) (drop n por_ler)
    ∙ ap (λ (t : List ℕ). recebido ++ t) (take-append-drop n por_ler)

escrever_bloco-IsFiel :
    (todo : List ℕ) (r : Rodada) (n : ℕ) (l : Lado)
    → l.recebido ++ l.por_ler ≡ todo
    → IsFiel todo (escrever_bloco r (take n l.por_ler) (record l { por_ler = drop n l.por_ler }))
unfolding escrever_bloco
escrever_bloco-IsFiel todo r n l e = caso r.falha
  where
    caso :
        (o : Option ℕ)
        → IsFiel todo (elim o [
          | none ↦ record l {
            recebido = l.recebido ++ take n l.por_ler;
            por_ler = drop n l.por_ler;
            situacao = if r.acabou then leitura_acabou else copiando;
          }
          | some k ↦ record l {
            recebido = l.recebido ++ take k (take n l.por_ler);
            por_ler = drop n l.por_ler;
            situacao = escrita_falhou;
          }
        ])
    caso none =
        acabou-Fiel todo (l.recebido ++ take n l.por_ler) (drop n l.por_ler) r.acabou
          (bloco_todo n l.recebido l.por_ler ∙ e)
    caso (some k) = (
      drop k (take n l.por_ler) ++ drop n l.por_ler,
      sym (
            append_assoc (l.recebido ++ take k (take n l.por_ler)) (drop k (take n l.por_ler))
              (drop n l.por_ler))
          ∙ ap (λ (t : List ℕ). t ++ drop n l.por_ler) (bloco_todo k l.recebido (take n l.por_ler))
          ∙ bloco_todo n l.recebido l.por_ler
          ∙ e,
    )

vazio_nil : (xs : List ℕ) → vazio xs ≡ true → xs ≡ []
vazio_nil [] e = refl
vazio_nil (x ∷ xs) e = absurd (ground (arith, e))

rodada-IsFiel : (todo : List ℕ) (r : Rodada) (l : Lado) → IsFiel todo l → IsFiel todo (rodada r l)
unfolding rodada
rodada-IsFiel todo r l h = caso l.situacao h
  where
    n : ℕ
    n = min r.lidos tamanho_do_buffer

    l1 : Lado
    l1 = record l { por_ler = drop n l.por_ler }

    caso :
        (s : Situacao)
        → Fiel todo l.recebido l.por_ler s
        → IsFiel todo (elim s [
          | copiando ↦
              if vazio (take n l.por_ler)
              then record l1 { situacao = if r.acabou then leitura_acabou else copiando }
              else escrever_bloco r (take n l.por_ler) l1
          | leitura_acabou ↦ l
          | escrita_falhou ↦ l
        ])
    caso copiando e =
        if_cases (IsFiel todo) (vazio (take n l.por_ler))
          (λ v. acabou-Fiel todo l.recebido (drop n l.por_ler) r.acabou (
            sym (
              ap (λ (t : List ℕ). l.recebido ++ (t ++ drop n l.por_ler))
                (vazio_nil (take n l.por_ler) v))
            ∙ ap (λ (t : List ℕ). l.recebido ++ t) (take-append-drop n l.por_ler)
            ∙ e))
          (λ _. escrever_bloco-IsFiel todo r n l e)
    caso leitura_acabou e = h
    caso escrita_falhou e = h

Copia-IsFiel :
    {l0 l : Ligacao} (cliente servidor : List ℕ)
    → IsFiel cliente l0.ida
    → IsFiel servidor l0.volta
    → Copia l0 l
    → IsFiel cliente l.ida × IsFiel servidor l.volta
Copia-IsFiel cliente servidor a b comeca = (a, b)
Copia-IsFiel cliente servidor a b (vai {l} r t c) =
    let (x, y) = Copia-IsFiel cliente servidor a b c in (rodada-IsFiel cliente r l.ida x, y)
Copia-IsFiel cliente servidor a b (volta_uma {l} r t c) =
    let (x, y) = Copia-IsFiel cliente servidor a b c in (x, rodada-IsFiel servidor r l.volta y)
Copia-IsFiel cliente servidor a b (fecha {l} t c) = Copia-IsFiel cliente servidor a b c

-- In every state of a copy that was linked up, whatever the reads and writes of both goroutines give
-- and in whatever order they come: the target got the front of the bytes already written to it (the
-- request and those that came with the handshake) and then the client's, the client got the front of
-- the target's, each once and in order, and on a side whose writes did not fail nothing is missing
-- between the bytes that arrived and those that its origin has still to send.
pub ligar-IsFiel :
    (escrito cliente servidor : List ℕ) (l : Ligacao)
    → Copia (ligar escrito cliente servidor) l
    → IsFiel (escrito ++ cliente) l.ida × IsFiel servidor l.volta
ligar-IsFiel escrito cliente servidor l c = Copia-IsFiel (escrito ++ cliente) servidor refl refl c

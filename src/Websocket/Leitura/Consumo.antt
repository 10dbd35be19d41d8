-- ===== src/Websocket/Leitura/Consumo.antt =====
-- src/websocket.go, Ler: the input that a message takes.
use greenlabs_server.Comum.{
  ℕ, zero, suc, ◌<◌, ◌≡◌, refl, ap, Bool, true, not, ◌+◌, ◌||◌, ◌==◌, ltb, Option, none, some, List,
  ◌++◌, length, arith, if_cases,
}
use greenlabs_server.Websocket.{
  Rede, Conn, QuadroSaida, Erro, Resultado, ok, err, op_texto, op_binario, op_continuacao,
  op_fechar, op_ping, op_pong, enfileirar, fechar, tamanho_maximo_mensagem,
}
use greenlabs_server.Websocket.Leitura.{
  QuadroLido, Segue, continua, entrega, falha, ler_quadro, fechar_mensagem, tratar_dados,
  tratar_continuacao, tratar_ping, tratar_quadro, apos_falha, ler_laco, ler,
}
use greenlabs_server.Websocket.Leitura.Limites.{ler_quadro-IsLido}

pub enfileirar-rede : (q : QuadroSaida) (c : Conn) → (enfileirar q c).0.rede ≡ c.rede
unfolding enfileirar fechar
enfileirar-rede q c = ground arith

abbrev MesmaRede : Conn → Conn × Segue → Type 0
MesmaRede c r = r.0.rede ≡ c.rede

fechar_mensagem-rede : (b : Bool) (c : Conn) → MesmaRede c (fechar_mensagem b c)
unfolding fechar_mensagem
fechar_mensagem-rede b c = ground arith

tratar_quadro-rede : (q : QuadroLido) (c : Conn) → MesmaRede c (tratar_quadro q c)
unfolding tratar_quadro tratar_ping tratar_dados tratar_continuacao
tratar_quadro-rede q c =
    if_cases (MesmaRede c) (q.opcode == op_ping)
      (λ _.
        pingou (enfileirar (record { opcode = op_pong; dados = q.dados }) c) (enfileirar-rede _ c))
      (λ _.
        if_cases (MesmaRede c) (q.opcode == op_pong) (λ _. refl)
          (λ _.
            if_cases (MesmaRede c) (q.opcode == op_fechar) (λ _. enfileirar-rede _ c)
              (λ _.
                if_cases (MesmaRede c) (q.opcode == op_texto || q.opcode == op_binario)
                  (λ _.
                    if_cases (MesmaRede c) c.montando (λ _. refl)
                      (λ _.
                        fechar_mensagem-rede q.fim
                          (record c { montagem = q.dados; montando = true })))
                  (λ _.
                    if_cases (MesmaRede c) (q.opcode == op_continuacao)
                      (λ _.
                        if_cases (MesmaRede c) (not c.montando) (λ _. refl)
                          (λ _.
                            if_cases (MesmaRede c)
                              (ltb tamanho_maximo_mensagem (length c.montagem + length q.dados))
                              (λ _. refl)
                              (λ _.
                                fechar_mensagem-rede q.fim
                                  (record c { montagem = c.montagem ++ q.dados }))))
                      (λ _. refl)))))
  where
    pingou :
        (r : Conn × Option Erro)
        → r.0.rede ≡ c.rede
        → MesmaRede c (elim r.1 [ none ↦ (r.0, continua) | some x ↦ (r.0, falha x) ])
    pingou (c', none) e = e
    pingou (c', some x) e = e

-- A message took some of the input.
abbrev pub Consumiu : Conn → Conn × Resultado (List ℕ) → Type 0
Consumiu c (c', ok m) = length c'.rede.entrada < length c.rede.entrada
Consumiu c (c', err e) = Unit

seguir_Consumiu :
    (c c' : Conn) (s : Segue) (depois : Conn × Resultado (List ℕ))
    → length c'.rede.entrada < length c.rede.entrada
    → Consumiu c' depois
    → Consumiu c (elim s [ continua ↦ depois | entrega m ↦ (c', ok m) | falha e ↦ (c', err e) ])
seguir_Consumiu c c' continua (c2, ok m) a b = omega (arith, a, b)
seguir_Consumiu c c' continua (c2, err e) a b = tt
seguir_Consumiu c c' (entrega m) depois a b = a
seguir_Consumiu c c' (falha e) depois a b = tt

ler_laco-Consumiu : (n : ℕ) (c : Conn) → Consumiu c (ler_laco n c)
unfolding ler_laco
ler_laco-Consumiu zero c = tt
ler_laco-Consumiu (suc n) c = rodada (ler_laco-Consumiu n) (ler_quadro c.rede) refl
  where
    rodada :
        ((c' : Conn) → Consumiu c' (ler_laco n c'))
        → (res : Resultado (QuadroLido × Rede)) → ler_quadro c.rede ≡ res
        → Consumiu c (elim res [
          | err e ↦ (apos_falha c, err e)
          | ok (q, r) ↦
              (let (c', s) = tratar_quadro q (record c { rede = r }) in
                let resto = ler_laco n c' in
                elim s [ continua ↦ resto | entrega m ↦ (c', ok m) | falha e ↦ (c', err e) ])
        ])
    rodada ih (err e) g = tt
    rodada ih (ok (q, r)) g =
        let l = ler_quadro-IsLido c.rede q r g in
        let (c', s) = tratar_quadro q (record c { rede = r }) in
        let mesma = tratar_quadro-rede q (record c { rede = r }) in
        seguir_Consumiu c c' s (ler_laco n c')
          (omega (arith, l.consumo, ap (λ (x : Rede). length x.entrada) mesma)) (ih c')

pub ler-Consumiu : (c : Conn) → Consumiu c (ler c)
unfolding ler
ler-Consumiu c = ler_laco-Consumiu (suc (length c.rede.entrada)) c

-- ===== src/Ponte/Ligacao/Lugar.antt =====
-- cmd/ponte/main.go, atender: the place of a connection, from the reservation to the deferred return.
use greenlabs_server.Comum.{
  ℕ, ◌≡◌, refl, subst, Bool, ◌||◌, Option, List, ◌∷◌, if◌then◌else◌, if_cases, arith,
}
use greenlabs_server.Comum.Texto.{Texto, vazio, eq_texto_refl}
use greenlabs_server.Comum.Inteiro.{leb_int}
use greenlabs_server.Ponte.{
  Limites, Ponte, Decisao, status, conectar, Resultado, aceito, recusado, validar, origem_de,
  decidir, de_ip, reservar, devolver,
}
use greenlabs_server.Ponte.Reservas.{Representa, tirar, reservado-Representa, devolver-Representa}
use greenlabs_server.Ponte.Ligacao.{Alcance, Desfecho, respondeu, encaminhar, atender}

-- The counters behind a decision: those of before, or with the place of the origin that goes on.
abbrev pub Contou : Ponte → List Texto → Ponte × Decisao → Type 0
Contou p xs (p1, status n) = Representa p1 xs
Contou p xs (p1, conectar origem destino) = Representa p1 (origem ∷ xs)

reservar-Contou :
    (lim : Limites) (origem destino : Texto) (p : Ponte) (xs : List Texto)
    → Representa p xs
    → (let (p', cabe) = reservar lim origem p in
        Contou p xs (if cabe then (p', conectar origem destino) else (p', status 429)))
unfolding reservar
reservar-Contou lim origem destino p xs h =
    if_cases
      (λ (s : Ponte × Bool).
        Contou p xs (if s.1 then (s.0, conectar origem destino) else (s.0, status 429)))
      (leb_int lim.total_maximo p.total || leb_int lim.por_limite (de_ip origem p)) (λ _. h)
      (λ _. reservado-Representa origem p xs h)

decidir-Contou :
    (resolver : Texto → Option (List (List ℕ))) (lim : Limites) (alvo remoto x_real_ip : Texto)
    (p : Ponte) (xs : List Texto)
    → Representa p xs
    → Contou p xs (decidir resolver lim alvo remoto x_real_ip p)
unfolding decidir
decidir-Contou resolver lim alvo remoto x_real_ip p xs h =
    if_cases (Contou p xs) (vazio alvo) (λ _. h) (λ _. caso (validar resolver p alvo))
  where
    caso :
        (r : Resultado Texto)
        → Contou p xs (elim r [
          | recusado _ ↦ (p, status 403)
          | aceito destino ↦
              (let origem = origem_de remoto x_real_ip in
                let (p', cabe) = reservar lim origem p in
                if cabe then (p', conectar origem destino) else (p', status 429))
        ])
    caso (recusado m) = h
    caso (aceito destino) = reservar-Contou lim (origem_de remoto x_real_ip) destino p xs h

tirar_primeiro : (ip : Texto) (xs : List Texto) → tirar ip (ip ∷ xs) ≡ xs
tirar_primeiro ip xs = rw (eq_texto_refl ip) refl

devolver-reservado :
    (origem : Texto) (p : Ponte) (xs : List Texto)
    → Representa p (origem ∷ xs)
    → Representa (devolver origem p) xs
devolver-reservado origem p xs h =
    let e = eq_texto_refl origem in
    subst (Representa (devolver origem p)) (tirar_primeiro origem xs)
      (devolver-Representa origem p (origem ∷ xs) h (ground (arith, e)))

-- atender, on every path: when the counters of the proxy stand for the connections that are open, they
-- stand for the same ones once the handler has returned, whether it answered with an error of its own,
-- could not reach the target or take the socket over, or copied until one side ended.
pub atender-Representa :
    (resolver : Texto → Option (List (List ℕ))) (lim : Limites) (a : Alcance)
    (alvo remoto x_real_ip : Texto) (pedido cliente servidor : List ℕ) (p : Ponte) (xs : List Texto)
    → Representa p xs
    → Representa (atender resolver lim a alvo remoto x_real_ip pedido cliente servidor p).0 xs
unfolding atender
atender-Representa resolver lim a alvo remoto x_real_ip pedido cliente servidor p xs h =
    caso (decidir resolver lim alvo remoto x_real_ip p)
      (decidir-Contou resolver lim alvo remoto x_real_ip p xs h)
  where
    caso :
        (d : Ponte × Decisao)
        → Contou p xs d
        → Representa
            (elim d.1 as (λ _. Ponte × Desfecho) [
              | status n ↦ (d.0, respondeu n)
              | conectar origem destino ↦
                  (devolver origem d.0, encaminhar a pedido cliente servidor)
            ]).0
            xs
    caso (p1, status n) c = c
    caso (p1, conectar origem destino) c = devolver-reservado origem p1 xs c

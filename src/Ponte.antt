-- ===== src/Ponte.antt =====
-- cmd/ponte/main.go: the proxy that gives TLS to servers without it.
-- The flags `-por-ip` and `-total` are a record; the resolver of names is an argument, as are
-- whether the client's connection can be hijacked and whether the target answers.
-- A counter cannot overflow, since it stops at a limit that is an int.
pub mod Endereco
pub mod Ligacao
pub mod Reservas
pub mod Publico
pub mod Validacao
pub mod Pedido
mod Exemplos
use greenlabs_server.Comum.{
  ℕ, Bool, true, false, not, ◌&&◌, ◌||◌, Option, none, some, List, [], ◌∷◌, ◌++◌, leb,
  if◌then◌else◌,
}
use greenlabs_server.Comum.Texto.{
  Texto, codes, dividir_em, vazio, trim_space, trim_prefix, trim_suffix,
}
use greenlabs_server.Comum.Inteiro.{ℤ, pos, negsuc, leb_int, mais_um, menos_um, atoi}
use greenlabs_server.Comum.Mapa.{Mapa, lookup, insert, erase}
use greenlabs_server.Ponte.Endereco.{eh_publico, split_host_port, join_host_port}

pub record Limites : Type 0 where
  pub por_limite : ℤ
  pub total_maximo : ℤ

pub record Ponte : Type 0 where
  pub porta_minima : ℤ
  pub porta_maxima : ℤ
  pub por_ip : Mapa ℤ
  pub total : ℤ

unfoldable pub nova_ponte : ℤ → ℤ → Ponte
nova_ponte minima maxima = record {
  porta_minima = minima;
  porta_maxima = maxima;
  por_ip = [];
  total = pos 0;
}

-- Reading a missing key of the map gives 0.
unfoldable pub de_ip : Texto → Ponte → ℤ
de_ip ip p = elim (lookup ip p.por_ip) [ none ↦ pos 0 | some n ↦ n ]

unfoldable pub reservar : Limites → Texto → Ponte → Ponte × Bool
reservar lim ip p =
    if leb_int lim.total_maximo p.total || leb_int lim.por_limite (de_ip ip p)
    then (p, false)
    else (
      record p { por_ip = insert ip (mais_um (de_ip ip p)) p.por_ip; total = mais_um p.total },
      true,
    )

unfoldable pub devolver : Texto → Ponte → Ponte
devolver ip p =
    let n = menos_um (de_ip ip p) in
    record p {
      por_ip = if leb_int n (pos 0) then erase ip p.por_ip else insert ip n p.por_ip;
      total = menos_um p.total;
    }

-- Why the target is refused.
pub data Recusa : Type 0 where
  sem_porta : Recusa
  porta_fora : Recusa
  sem_endereco : Recusa
  interno : Recusa

pub data Resultado (A : Type 0) : Type 0 where
  aceito : A → Resultado A
  recusado : Recusa → Resultado A

unfoldable pub todos_publicos : List (List ℕ) → Bool
todos_publicos [] = true
todos_publicos (ip ∷ ips) = eh_publico ip && todos_publicos ips

unfoldable pub limpar_alvo : Texto → Texto
limpar_alvo alvo =
    trim_suffix (trim_prefix (trim_prefix (trim_space alvo) (codes "ws://")) (codes "http://"))
      (codes "/")

-- The part of validar behind the split; the resolver's `none` is an error.
unfoldable pub conferir_porta : Ponte → Texto → Bool
conferir_porta p texto = elim (atoi texto) [
  | none ↦ false
  | some porta ↦ leb_int p.porta_minima porta && leb_int porta p.porta_maxima
]

unfoldable pub conferir_destino :
    (Texto → Option (List (List ℕ))) → Ponte → Texto → Texto → Resultado Texto
conferir_destino resolver p host porta =
    if not (conferir_porta p porta) then recusado porta_fora else elim (resolver host) [
      | none ↦ recusado sem_endereco
      | some [] ↦ recusado sem_endereco
      | some (ip ∷ ips) ↦
          if todos_publicos (ip ∷ ips) then aceito (join_host_port host porta) else recusado interno
    ]

unfoldable pub validar : (Texto → Option (List (List ℕ))) → Ponte → Texto → Resultado Texto
validar resolver p alvo = elim (split_host_port (limpar_alvo alvo)) [
  | none ↦ recusado sem_porta
  | some (host, porta) ↦ conferir_destino resolver p host porta
]

-- What atender answers before it connects: an HTTP status, or the target and the origin whose place
-- is taken.
pub data Decisao : Type 0 where
  status : ℕ → Decisao
  conectar : Texto → Texto → Decisao

unfoldable pub origem_de : Texto → Texto → Texto
origem_de remoto x_real_ip =
    if vazio x_real_ip
    then elim (split_host_port remoto) [ none ↦ [] | some (host, porta) ↦ host ]
    else x_real_ip

unfoldable pub decidir :
    (Texto → Option (List (List ℕ))) → Limites → Texto → Texto → Texto → Ponte → Ponte × Decisao
decidir resolver lim alvo remoto x_real_ip p =
    if vazio alvo then (p, status 400) else elim (validar resolver p alvo) [
      | recusado _ ↦ (p, status 403)
      | aceito destino ↦
          (let origem = origem_de remoto x_real_ip in
            let (p', cabe) = reservar lim origem p in
            if cabe then (p', conectar origem destino) else (p', status 429))
    ]

-- lerFaixa: strings.SplitN at the first '-', in two.
unfoldable pub conferir_faixa : ℤ → ℤ → Option (ℤ × ℤ)
conferir_faixa a b =
    if not (leb_int (pos 1) a) || not (leb_int b (pos 65535)) || not (leb_int a b)
    then none
    else some (a, b)

unfoldable pub ler_faixa : Texto → Option (ℤ × ℤ)
ler_faixa texto = elim (dividir_em b'-' texto) [
  | none ↦ none
  | some (x, y) ↦ elim (atoi (trim_space x)) [
    | none ↦ none
    | some a ↦ elim (atoi (trim_space y)) [ none ↦ none | some b ↦ conferir_faixa a b ]
  ]
]

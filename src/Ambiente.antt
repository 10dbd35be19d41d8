-- ===== src/Ambiente.antt =====
-- src/env.go and src/main.go, lerOpcoes: the settings of the server.
-- The environment is a map. The lines of the file come as bufio.Scanner gives them, and a missing
-- file is none.
pub mod Console
pub mod Portas
pub mod Linhas
pub mod Argumentos
mod Exemplos
use greenlabs_server.Comum.{
  ℕ, suc, ◌+◌, ◌-◌, Bool, true, false, not, ◌&&◌, ◌||◌, Option, none, some, List, [], ◌∷◌, ltb, leb,
  ◌==◌, if◌then◌else◌, length, take, drop,
}
use greenlabs_server.Comum.Texto.{
  Texto, codes, eq_texto, vazio, has_prefix, drop_texto, trim_space, to_lower, dividir_em,
}
use greenlabs_server.Comum.Mapa.{Mapa, lookup, insert}
use greenlabs_server.Comum.Inteiro.{ℤ, pos, negsuc, leb_int, atoi}

abbrev pub Ambiente : Type 0
Ambiente = Mapa Texto

-- os.Getenv: a missing name is the empty text.
unfoldable pub getenv : Texto → Ambiente → Texto
getenv chave amb = elim (lookup chave amb) [ none ↦ [] | some v ↦ v ]

abbrev ultimo : ℕ → Texto → ℕ
ultimo d [] = d
ultimo d (c ∷ cs) = ultimo c cs

-- A value in single or double quotes loses them.
unfoldable pub sem_aspas : Texto → Texto
sem_aspas [] = []
sem_aspas (c ∷ cs) =
    let fim = ultimo c cs in
    if ltb 1 (length (c ∷ cs)) && (((c == b'"') && (fim == b'"')) || ((c == 39) && (fim == 39)))
    then take (length (c ∷ cs) - 2) cs
    else c ∷ cs

-- The name and the value that a line sets.
unfoldable pub ler_linha : Texto → Option (Texto × Texto)
ler_linha texto =
    let linha = trim_space texto in
    if vazio linha || has_prefix linha (codes "#") then none else elim (dividir_em b'=' linha) [
      | none ↦ none
      | some (antes, depois) ↦
          (let chave = trim_space antes in
            if vazio chave then none else some (chave, sem_aspas (trim_space depois)))
    ]

-- os.Setenv refuses a zero byte; the name is not empty and has no '='.
unfoldable pub tem_nulo : Texto → Bool
tem_nulo [] = false
tem_nulo (c ∷ cs) = (c == 0) || tem_nulo cs

unfoldable pub definir : Option (Texto × Texto) → Ambiente → Ambiente
unfolding tem_nulo
definir none amb = amb
definir (some (chave, valor)) amb = elim (lookup chave amb) [
  | some _ ↦ amb
  | none ↦ if tem_nulo chave || tem_nulo valor then amb else insert chave valor amb
]

unfoldable pub ler_linhas : List Texto → Ambiente → Ambiente
unfolding ler_linha definir
ler_linhas [] amb = amb
ler_linhas (l ∷ ls) amb = ler_linhas ls (definir (ler_linha l) amb)

-- The second result says if there was a file.
unfoldable pub carregar_env : Option (List Texto) → Ambiente → Ambiente × Bool
carregar_env none amb = (amb, false)
carregar_env (some ls) amb = (ler_linhas ls amb, true)

unfoldable pub porta_valida : ℤ → Bool
porta_valida n = leb_int (pos 1) n && leb_int n (pos 65535)

unfoldable pub porta_do_ambiente : List Texto → Ambiente → ℤ
unfolding porta_valida
porta_do_ambiente [] amb = pos 25640
porta_do_ambiente (chave ∷ chaves) amb =
    let resto = porta_do_ambiente chaves amb in
    elim (atoi (trim_space (getenv chave amb))) [
      | none ↦ resto
      | some n ↦ if porta_valida n then n else resto
    ]

unfoldable pub resolver_porta : Ambiente → ℤ → ℤ
resolver_porta amb preferida =
    if porta_valida preferida
    then preferida
    else porta_do_ambiente (codes "PORT" ∷ codes "SERVER_PORT" ∷ []) amb

unfoldable pub limite_do_ambiente : Ambiente → Texto → ℤ → ℤ → ℤ
limite_do_ambiente amb chave padrao maximo = elim (atoi (trim_space (getenv chave amb))) [
  | none ↦ padrao
  | some n ↦ if not (leb_int (pos 1) n) || not (leb_int n maximo) then padrao else n
]

pub record Opcoes : Type 0 where
  pub porta : ℤ
  pub tunel : Texto
  pub sfu : Bool
  pub publico : Texto

abbrev pub opcoes_vazias : Opcoes
opcoes_vazias = record { porta = pos 0; tunel = []; sfu = false; publico = [] }

unfoldable pub com_porta : Texto → Opcoes → Opcoes
com_porta texto o = elim (atoi texto) [ none ↦ o | some n ↦ record o { porta = n } ]

-- The cases of the switch that look at one argument; `none` is the help, which ends the program.
unfoldable pub ler_argumento : Texto → Opcoes → Option Opcoes
ler_argumento arg o =
    if has_prefix arg (codes "--port=")
    then some (com_porta (drop_texto 7 arg) o)
    else if eq_texto arg (codes "--sfu")
    then some (record o { sfu = true })
    else if has_prefix arg (codes "--publico=")
    then some (record o { publico = drop_texto 10 arg })
    else if eq_texto arg (codes "--tunnel")
    then some (record o { tunel = codes "auto" })
    else if has_prefix arg (codes "--tunnel=")
    then some (record o { tunel = to_lower (drop_texto 9 arg) })
    else if eq_texto arg (codes "-h") || eq_texto arg (codes "--help")
    then none
    else some o

-- A switch with its value in the next argument takes both.
unfoldable pub ler_opcoes : List Texto → Opcoes → Option Opcoes
unfolding ler_argumento com_porta
ler_opcoes [] o = some o
ler_opcoes (arg ∷ []) o = ler_argumento arg o
ler_opcoes (arg ∷ proximo ∷ resto) o =
    let como_porta = ler_opcoes resto (com_porta proximo o) in
    let como_publico = ler_opcoes resto (record o { publico = proximo }) in
    let seguinte : Option Opcoes = elim (ler_argumento arg o) [
      | none ↦ none
      | some o' ↦ ler_opcoes (proximo ∷ resto) o'
    ] in
    if eq_texto arg (codes "--port")
    then como_porta
    else if eq_texto arg (codes "--publico")
    then como_publico
    else seguinte

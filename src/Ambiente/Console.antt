-- ===== src/Ambiente/Console.antt =====
-- src/console.go: the questions on the console, and the part of main that settles the port. The input
-- is what is still to be typed; bufio.Reader and its buffer are that text. What the questions print is
-- left out, but for the notice of an invalid port.
pub mod Numeros
pub mod Respostas
use greenlabs_server.Comum.{
  ℕ, Bool, true, false, not, ◌&&◌, ◌||◌, Option, none, some, List, [], ◌∷◌, ◌++◌, if◌then◌else◌,
}
use greenlabs_server.Comum.Texto.{Texto, codes, eq_texto, vazio, trim_space, to_lower, dividir_em}
use greenlabs_server.Comum.Inteiro.{ℤ, pos, negsuc, leb_int, atoi}
use greenlabs_server.Hub.Operacoes.{format_int}
use greenlabs_server.Ambiente.{
  Ambiente, Opcoes, carregar_env, ler_opcoes, opcoes_vazias, porta_valida, resolver_porta,
}

-- ReadString('\n'): the line with its end, and what stands behind it; an input that ends first is an
-- error, and is used up.
unfoldable pub ler_string : Texto → Option Texto × Texto
ler_string entrada = elim (dividir_em 10 entrada) [
  | none ↦ (none, [])
  | some (linha, resto) ↦ (some (linha ++ (10 ∷ [])), resto)
]

unfoldable pub resposta_ou : Texto → Option Texto → Texto
resposta_ou padrao none = padrao
resposta_ou padrao (some linha) =
    let limpa = trim_space linha in if vazio limpa then padrao else limpa

unfoldable pub perguntar : Texto → Texto → Texto × Texto
unfolding ler_string resposta_ou
perguntar padrao entrada =
    let (linha, resto) = ler_string entrada in (resposta_ou padrao linha, resto)

unfoldable pub sim_ou_nao : Bool → Option Texto → Bool
sim_ou_nao padrao none = padrao
sim_ou_nao padrao (some linha) =
    let r = to_lower (trim_space linha) in
    if vazio r
    then padrao
    else eq_texto r (codes "s")
      || eq_texto r (codes "sim")
      || eq_texto r (codes "y")
      || eq_texto r (codes "yes")

unfoldable pub perguntar_sim_nao : Bool → Texto → Bool × Texto
unfolding ler_string sim_ou_nao
perguntar_sim_nao padrao entrada =
    let (linha, resto) = ler_string entrada in (sim_ou_nao padrao linha, resto)

-- What an answer to the question of the port does to the options.
unfoldable pub com_resposta : Texto → Opcoes → Opcoes
com_resposta resposta o = elim (atoi resposta) [
  | none ↦ o
  | some n ↦ if porta_valida n then record o { porta = n } else o
]

-- `porta invalida, usando ...` is printed.
unfoldable pub avisa_invalida : Texto → Texto → Bool
avisa_invalida padrao resposta = elim (atoi resposta) [
  | none ↦ not (eq_texto resposta padrao)
  | some n ↦ if porta_valida n then false else not (eq_texto resposta padrao)
]

unfoldable pub tem_opcao : Opcoes → Bool
tem_opcao o = not (leb_int o.porta (pos 0) && leb_int (pos 0) o.porta) || not (vazio o.tunel)

unfoldable pub com_tunel : Bool → Opcoes → Opcoes
com_tunel sim o = if sim then record o { tunel = codes "auto" } else o

-- The options, the input that is left, and the notice.
unfoldable pub perguntar_configuracao : Ambiente → Bool → Texto → Opcoes → Opcoes × Texto × Bool
unfolding tem_opcao com_tunel perguntar com_resposta avisa_invalida perguntar_sim_nao
perguntar_configuracao amb terminal entrada o =
    let padrao = format_int (resolver_porta amb (pos 0)) in
    let (resposta, r1) = perguntar padrao entrada in
    let (sim, r2) = perguntar_sim_nao false r1 in
    if tem_opcao o
    then (o, entrada, false)
    else if not terminal
    then (o, entrada, false)
    else (com_tunel sim (com_resposta resposta o), r2, avisa_invalida padrao resposta)

-- The start of main, to the port that Iniciar gets: none is the end of the program by the help.
unfoldable pub configurar :
    Option (List Texto) → Ambiente → List Texto → Bool → Texto → Option (Opcoes × ℤ)
unfolding perguntar_configuracao
configurar arquivo amb argumentos terminal entrada =
    let amb1 = (carregar_env arquivo amb).0 in
    elim (ler_opcoes argumentos opcoes_vazias) [
      | none ↦ none
      | some o ↦
          (let o1 = (perguntar_configuracao amb1 terminal entrada o).0 in
            some (o1, resolver_porta amb1 o1.porta))
    ]

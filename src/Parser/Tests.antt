-- ===== src/Parser/Tests.antt =====
-- internal/parser/parser.go: runs at concrete inputs.
use ccomp.Base.{ℕ, suc, ◌≡◌, ◌⊎◌, refl, false, List, [], ◌∷◌, Option, some, none, length, arith}
use ccomp.Base.Text.{Text, codes}
use ccomp.Ast.{
  ident, int_lit, binary_expr, call_expr, an_expr, no_expr, BinOp, UnOp, Decl, func_decl, bt_int,
  a_stmt, no_stmts, return_stmt,
}
use ccomp.Lexer
use ccomp.Lexer.Token.{TokenType, Unicode, ascii_letter, ascii_digit}
use ccomp.Lexer.Stream.{tokens}
use ccomp.Parser.{Parser, Error, Result, ok, err, left}
use ccomp.Parser.Decl.{parser_at, parse_file}
use ccomp.Parser.DeclEnds.{parse_file_total}
use ccomp.Parser.Expr.{parse_expr}
use ccomp.Parser.Operators.{op_type}
use ccomp.Parser.Print.{
  Tree, name, number, prefix, binary, call, none_left, tree_and, mark, print, tree,
}
use ccomp.Parser.RoundTrip.{parse_expr-print}
use ccomp.Parser.Precedence.{Comparison, Sum, sums_taken_last, call_statement_refused}
use ccomp.Parser.Source.{tok_after, asked, tok_after-tokens}
use ccomp.Parser.Stmt.{parse_stmt}

abbrev ascii : Unicode
ascii = record {
  is_letter = ascii_letter;
  is_digit = ascii_digit;
  letter_ascii = λ c h. refl;
  digit_ascii = λ c h. refl;
}

abbrev no_float : Text → ℕ
no_float x = 0

abbrev decls_of : Result (List Decl) → Option (List Decl)
decls_of (ok ds p) = some ds
decls_of _ = none

abbrev program : Text
program = codes "int f(int n){return n*2+g(n,1);}"

program_tree :
    decls_of (parse_file no_float ascii program)
    ≡ some (
        func_decl
          (codes "f")
          (record { name = codes "n"; typ = bt_int; ptr = false } ∷ [])
          (a_stmt
            (return_stmt
              (binary_expr BinOp.add
                (binary_expr BinOp.mul (ident (codes "n")) (int_lit 2))
                (call_expr (codes "g") (an_expr (ident (codes "n")) (an_expr (int_lit 1) no_expr))))
              (record { line = 1; col = 14 }))
            no_stmts)
          bt_int
        ∷ [])
unfolding parse_file ccomp.Lexer.Next.next Lexer.start
program_tree = refl

parse_file_total_example :
    ((e : Error) × (parse_file no_float ascii program ≡ err e))
    ⊎ ((ds : List Decl) × (p : Parser) × (parse_file no_float ascii program ≡ ok ds p)
        × (left p ≡ 0))
parse_file_total_example = parse_file_total no_float ascii program

-- `-(a * 2)` and `f(a, 7)`.
abbrev negated : Tree
negated = prefix UnOp.neg (binary BinOp.mul (name (codes "a")) (number (codes "2")))

abbrev called : Tree
called = call (codes "f") (tree_and (name (codes "a")) (tree_and (number (codes "7")) none_left))

parse_expr-print_example :
    parse_expr no_float (parser_at (print negated (mark TokenType.semi ∷ [])))
    ≡ ok (tree no_float negated) (parser_at (mark TokenType.semi ∷ []))
parse_expr-print_example = parse_expr-print no_float negated (mark TokenType.semi) [] refl refl

-- `-(a * 2) <= f(a, 7) - a;`.
sums_taken_last_example :
    parse_expr no_float (
      parser_at (
        print negated (
          mark (op_type BinOp.le)
          ∷ print called
              (mark (op_type BinOp.sub) ∷ print (name (codes "a")) (mark TokenType.semi ∷ [])))))
    ≡ ok
        (binary_expr BinOp.sub
          (binary_expr BinOp.le (tree no_float negated) (tree no_float called))
          (tree no_float (name (codes "a"))))
        (parser_at (mark TokenType.semi ∷ []))
sums_taken_last_example =
    sums_taken_last no_float BinOp.le BinOp.sub Comparison.le Sum.sub negated called
      (name (codes "a")) (mark TokenType.semi) [] refl refl

call_statement_refused_example :
    parse_stmt no_float (
      parser_at (
        record { type = TokenType.ident; lex = codes "f"; line = 1; col = 3 }
        ∷ record { type = TokenType.lparen; lex = codes "("; line = 1; col = 4 }
        ∷ mark TokenType.rparen
        ∷ []))
    ≡ err (
        Error.expected TokenType.semi
          (record { type = TokenType.lparen; lex = codes "("; line = 1; col = 4 }))
call_statement_refused_example =
    call_statement_refused no_float (codes "f") (codes "(") 1 3 1 4 (mark TokenType.rparen ∷ [])

tok_after-tokens_example :
    tok_after 9 (parser_at (tokens ascii (suc (length program)) (Lexer.start program)))
    ≡ asked ascii 9 (Lexer.start program)
unfolding Lexer.left Lexer.start
tok_after-tokens_example =
    tok_after-tokens ascii 9 (suc (length program)) (Lexer.start program) (omega arith)

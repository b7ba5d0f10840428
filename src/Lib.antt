-- ===== src/Lib.antt =====
-- ccomp, a compiler from a small C to x86-64 assembly: what its parts compute, and why that is
-- right.
--
-- The compiler is a pipeline. The lexer (internal/lexer) turns a text into tokens, which the parser
-- (internal/parser) asks for one by one and makes a tree of (internal/ast); the builder
-- (internal/ir/ir.go) makes functions of basic blocks in single assignment; the optimizer
-- (internal/ir/opt.go) rewrites each function in place; phi.go takes the phis out; the register
-- allocator (internal/codegen/x86_64/ra.go) and the emitter beside it turn a function into assembly.
--
-- What is modelled, and where:
--   Base      numbers, lists, texts and 64-bit words (Base.Word) that the parts share.
--   Lexer     internal/lexer. `Lexer` is the struct, `read`, `peek` and `start` (`New`) its small
--             operations. Lexer.Token has token.go. `Next` is `next` in Lexer.Next, over the loops of
--             Lexer.Scan; a case of its switch is a `take_` function. `tokens` in Lexer.Stream is the
--             loop of tools/debug_tokens.go. Lexer.Vocabulary has tables of the keywords and of the
--             punctuation, a specification.
--   Types     internal/types.
--   Ast       internal/ast: the tree, as data types of a mutual block.
--   Parser    internal/parser. `Parser` is the struct, where the lexer is the list of the tokens to
--             come; a method is a function from a parser to a value and the parser after it, or an
--             error. Parser.Expr has the levels of the expressions, Parser.Simple the simple
--             statements, Parser.Stmt the others and Parser.Decl the declarations, up to `parse_file`
--             (ParseFile). Parser.Print writes expressions as tokens.
--   Ir        the data of internal/ir/ir.go. Ir.Meaning says what a function computes: the values of
--             the ids, a memory and the number of parameters taken as a state, `run` from block to block. It is a
--             specification: the source has no interpreter.
--   Ir.Build  the builder of internal/ir/ir.go. `Ctx` is buildCtx; a method is a step from a state to
--             a value and a state, or an error. Ir.Build has the values, blocks and edges, and the
--             construction of SSA form (`read_var` is readVar, `seal_block` sealBlock); its child Expr
--             is buildExprWithType and buildLogical, Stmt is buildBlock and the functions it calls,
--             Switch the comparisons of buildSwitch, and Program is BuildModule.
--   Ir.Opt    internal/ir/opt.go. `const_fold_func`, `dce_func` and `optimize` are the functions of
--             those names.
--   Ir.Phi    internal/ir/phi.go, with newBlock and addEdge of ir.go: `phi_eliminate` is PhiEliminate.
--   Codegen   internal/codegen/x86_64. Codegen.Ra is ra.go: `live_intervals` is the first half of
--             allocateRegisters, up to the sort, `scan` the second. Codegen.Emit and its child Func are
--             emit.go: `emit_op` is the switch of emitFunc, `emit_alu` is emitArith and emitBitwise,
--             and Codegen.Emit.Module has EmitModule. A line of assembly is a value of Codegen.Asm,
--             which also says what the lines do that neither jump nor go to memory outside the frame:
--             this, like Ir.Meaning, is a specification.
--   Compile   cmd/ccomp/main.go: `compile` is what main does with a text, from the parser to the
--             assembly or the error of a phase.
--
-- How the code is read. A Go string and a []rune are lists of code points; an int64 is its bit
-- pattern below 2 ^ 64; a value id is an integer, since -1 means none; a pointer to a block is its
-- index; a map is a function or an association list. A loop over characters has for its fuel the
-- number of the characters that are left, which is enough because each round reads one; the loop over
-- spaces and comments and the list of the tokens have one more. The removal of dead instructions has
-- one round more than there are instructions, since each round but the last takes one away. The
-- parser's loops, and its nested calls for unary expressions and for statements, have one round more
-- than tokens are left, since each takes a token. The calls of readVar that are nested go from a
-- block to its one predecessor, or give a block its entry for the variable: their fuel is the square
-- of one more than there are blocks. It is enough where no chain of blocks with one predecessor each
-- comes back to its start; the states of the builder have a value `out_of_fuel` for the others. The
-- filter in the take-over of a spill candidate works in the slice that it reads, and the candidate is
-- a pointer into it: `remove_in_place` keeps the cells.
--
-- What is a parameter. `unicode.IsLetter` and `unicode.IsDigit` are those of a record `Unicode`, with
-- their documented values on ASCII; the arithmetic of float64 is a record `Float64` of functions on
-- bit patterns; memory, the arguments and calls are a record `World`; `strconv.ParseFloat` is a function to bit
-- patterns, and the order in which Go visits the map of pending phis is a function on lists. The map of the
-- definitions in ra.go is visited in one order, which the sort undoes.
-- strconv.ParseInt is written out, in Parser.Number.
--
-- In the emitter a missing argument, at which the source panics, and an error that it returns are both
-- `none`. The frame is a function from offsets to 64-bit words, which is right because all offsets that
-- the emitter writes are multiples of 8. Besides %rax and %rcx the division overwrites %rdx, which may be
-- the home of a value. `idiv` has a meaning where %rdx is what `cqo` leaves in it.
--
-- What is not modelled. That the address of a value puts the value into its slot, in Ir.Meaning, where it
-- is a read of the value; the meaning of loads, stores, addresses, calls and jumps in assembly, and of
-- the text that the assembler reads, where a constant may be too long for its instruction; the arguments,
-- files and exit codes of the driver; the text of the error messages, of which the parts are kept.
pub mod Ast
pub mod Base
pub mod Codegen
pub mod Compile
pub mod Ir
pub mod Lexer
pub mod Parser
pub mod Types

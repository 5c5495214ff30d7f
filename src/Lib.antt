-- ===== src/Lib.antt =====
-- nebula-chaos runs plans of actions against a Nebula Graph cluster: it starts and disturbs
-- services while it writes data, and then checks the data.
--
-- The parts of the program and the files that model them:
--
-- src/core (Core.antt). An action (src/core/Action.h, class Action; Core/Action.antt) is a record
-- of its status, its promise and its links. `begin_run` and `finish_run` are `run` in front of
-- and behind the virtual `doRun`, whose result is an argument; `none` is a failed CHECK.
-- A plan (src/core/ChaosPlan.h, ChaosPlan.cpp; Core/Plan.antt) is a function from positions to
-- actions with its size. `wire` is what `schedule` adds to the graph: the sink, which sends the
-- email, and the source. The callbacks that `schedule` hands to the thread pool are steps on a
-- state (`start`, `finish`, `throw`, `mark`, `settle`), and `resume` is the main thread behind its
-- `wait`; a list of such events is one order in which the threads may run. A step that cannot
-- happen is `disabled`, and one that fails a CHECK or sets a promise twice is `aborted`.
-- Clocks, logs and the text of the email are left out, and so is the number of threads: every
-- order of the events is allowed, also those that a small pool would not show.
--
-- AssignAction (src/core/AssignAction.h; Core/Assign.antt) runs the parser, which is a parameter, and
-- the expression that it returns, and sets a variable.
--
-- DisturbAction (src/core/Action.h; Core/Disturb.antt) calls two virtual methods, which are parameters
-- that may answer anew in each round; the sleeps are part of the result, and the rounds are a natural
-- number.
--
-- src/expression (Expression.antt). Expression/Integers.antt has integers with the arithmetic of
-- int64_t, where an operation whose result does not fit is `undefined`, and the overflow tests of
-- ArithmeticExpression::eval; `died` is LOG(FATAL). Expression/Values.antt has the values, the
-- variables and the expressions, and Expression/Eval.antt has `eval`. The arithmetic of double is a
-- parameter (Doubles). The order of values is that of boost::variant. Logs are left out.
--
-- src/tools/FlowChart.py (FlowChart.antt). The json values that `parseActions` reads are data
-- types in which a key may be missing; the calls on the Graphviz graph are its result. An index
-- of an instance is a natural number: Python's negative indices are not modelled.
-- The files, the command line and the rendering are left out.
-- FlowChart/Calls.antt describes all that a plan shows, FlowChart/Names.antt the names of the nodes of one
-- list of actions, and FlowChart/Shared.antt names that two sub-plans share.
--
-- .linters/cpp/cpplint.py (Lint.antt), the linter that the commit hook runs over the C++ sources.
-- Python's `re` is a backtracking matcher on patterns as data (Lint/Regex.antt), on ASCII text; a
-- repetition has fuel above the length of the rest, and a round that matches nothing ends it.
-- Lint/Brackets.antt holds CloseExpression and FindEndOfExpressionInLine, Lint/Brackets/Reverse.antt
-- the searches backwards. A stack is a list whose top stands first, and -1 is a constructor.
-- Lint/Comments.antt holds RemoveMultiLineComments, whose fuel is one more than the number of lines,
-- since each round goes on behind the line that the last one ended at.
-- Lint/Strings.antt holds CleanseComments and _CollapseStrings on one line; each turn of the loop
-- leaves a shorter text, so one more than the length of the line is fuel enough.
-- Lint/Cleansed.antt holds CleanseRawStrings and class CleansedLines; each turn of its inner loop takes
-- more away from the line than the two quotes that it puts in. A match that is None where its group is
-- asked for would be an AttributeError, and is `none`.
-- Lint/Includes.antt holds class _IncludeState; its messages are kept.
-- Lint/State.antt holds class _CppLintState, with the filters and counts, and Error. A message that
-- Error writes is a record; the formats of the streams and the XML are left out. A ValueError is a
-- Boolean beside the state that it leaves, and a failed assertion is `none`.
-- Lint/State/Nolint.antt holds ParseNolintSuppressions.
-- Lint/Nesting.antt holds the blocks and stacks of class NestingState and UpdatePreprocessor,
-- Lint/Nesting/Checks.antt the checks of the blocks, Lint/Nesting/Braces.antt the last loop of Update,
-- Lint/Nesting/Templates.antt InTemplateArgumentList, whose fuel is one more than the number of
-- characters and ends of lines, and Lint/Nesting/Update.antt the rest of Update, whose loop over
-- namespaces has one more than the length of the line as fuel. elided[linenum] and raw_lines[linenum]
-- that Update and _ClassInfo read are looked up, with `none` for an IndexError; the checks of the blocks,
-- which run behind them on the same lines, read a line out of range as an empty one. The deep copies of the source are
-- copies, as values always are.
-- Lint/Checks.antt holds checks of lines: a check is a function to the list of the calls of error.
-- Lint/Checks/Constructs.antt and Explicit.antt hold CheckForNonStandardConstructs, where `none` is an
-- IndexError, and CheckPosixThreading, CheckVlogArguments, CheckInvalidIncrement and
-- CheckForMultilineCommentsAndStrings; Calls.antt holds CheckSpacingForFunctionCall, Remarks.antt
-- CheckComment, Spacing.antt CheckSpacing, Operators.antt CheckOperatorSpacing, Punctuation.antt
-- CheckParenthesisSpacing, CheckCommaSpacing and CheckSectionSpacing, Functions.antt class
-- _FunctionState and CheckForFunctionLengths, and Whole.antt the checks of a whole file with the
-- reading of its lines in ProcessFile.
-- Guard.antt holds CheckForHeaderGuard, where the variable of the header guard is an argument, and the
-- suppressions of a whole file, Inside.antt _GetTextInside, Language.antt CheckAltTokens,
-- CheckMakePairUsesDeduction, CheckRedundantOverrideOrFinal and CheckItemIndentationInNamespace, and
-- Features.antt FlagCxx11Features and FlagCxx14Features. Macros.antt holds FindCheckMacro and
-- CheckCheck, whose loop is in Operands.antt and has one more than the length of the expression as
-- fuel (Macros/Ends.antt), and Braces.antt _IsType and CheckBracesSpacing.
--
-- Not modelled: the other checks of cpplint.py, which ProcessLine, ProcessFileData and CheckStyle call
-- beside these, and so the three; the file names and options; the actions of src/core and src/nebula
-- on a running cluster; the parser, which bison and flex generate.
--
-- Prelude.antt holds what the parts share: tests on numbers, lists, and Python's text as a list of
-- code points. Tests.antt runs the model on small inputs.
pub mod Core
pub mod Expression
pub mod FlowChart
pub mod Lint
pub mod Prelude
pub mod Tests

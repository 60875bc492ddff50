-- ===== src/Lib.antt =====
-- news-tracker: a worker reads the pages of news sites and publishes their articles to a NATS
-- stream; a backend stores them in Postgres and serves them over HTTP with pagination.
--
-- Prelude: the library names and Boolean tests that the other files share; byte strings (Go strings
-- and byte slices are lists of numbers), string maps as association lists, the parts of Go's
-- `strings` that are used; `Outcome`, what running Go code may end in.
-- Token: worker/pkg/parser/token. `TokenCursorReader` is a cursor over the bytes of one tag; an index
-- past the end is a panic. OpenTag and CloseTag are the tags' `Unmarshal`. A loop runs on as much
-- fuel as the tag has bytes; the cursor grows in each round, so it never runs out.
-- Ast: worker/pkg/parser/ast_generator.go, with `Node` of types.go and `LastChildOfNode` of utils.go.
-- The nodes are on a heap and `Next` is a pointer into it; Ast/Forest is the same without pointers.
-- The walk along `Next` has the size of the heap for fuel.
-- Selector: worker/pkg/parser/selector/class_selector.go, and `ContainsClass` of utils.go.
-- Parse: worker/pkg/parser/parser.go: what each token does to a selector. Parse/Build is the
-- specification of a selector's run, over forests.
-- Tokenizer: worker/pkg/parser/tokenizer.go, and TokenType and ParserState of types.go: `readByte`,
-- `GetBuffer`, `tag`, `readUntilCloseBracket` and `Next` over a buffer and its cursors. The io.Reader is
-- a parameter that gives at most as many bytes as it is asked for; a polite one gives its bytes in
-- pieces and then io.EOF alone. The loops run on fuel, since a reader may give nothing and no error for
-- ever; with a polite one more fuel than bytes is enough. Tokenizer/Lex is the specification of `Next`
-- by the bytes to come.
-- Document: the loop of `Parse` for all selectors, with a round for each token. Here a callback keeps its
-- trees for itself: the goroutines of one token share nothing and are waited for, so they are run one
-- after the other. Document/Print is the syntax of a written document.
-- Watch: `Parse` with callbacks that change a shared state. The goroutines of one token get at it in an
-- order that is an argument, the schedule; a callback is one step of it, since the callbacks of fields
-- of different types write different parts of an article. Watch/Orders is about schedules that only reorder.
-- Fields: worker/internal/prebuiltemplate/article.go, the callbacks of an article's fields.
-- Extract: worker/internal/prebuiltemplate/newsfeed.go, from the feed's url to the articles of the
-- channel. Extract/Page is the specification of `Parse` with callbacks by the bytes of the page.
-- Pagination: pkg/paginationutils/paginationutils.go. Pagination/Window is a layout of page links
-- written down independently of the code. Numbers of pages stay below 2^53, where integers are exact
-- floats; Pagination/Floats has the division, whose rounding `Ceil` does not see.
-- Dates: pkg/dateutils/dateutils.go; `time` is a parameter.
-- Errors, Article, Storage, Service, Consumer: the backend's way from a message to the database:
-- pkg/natsinfo/models.go, backend/internal/storage (a parameter), backend/internal/service/article.go
-- with backend/pkg/txutils/txutils.go, backend/internal/worker/article_consumer.go.
-- Accessor: backend/internal/accessor/article.go. Counts: `GetArticlesCount` of the service, with its
-- cache.
-- Handlers: how backend/internal/handler/v1/article_wrapper.go reads a query.
-- Listing: the handlers of backend/internal/handler/v1/article.go, on top of `GetArticles`,
-- `GetArticleByID` and `GetArticlesCount` of the service, the accessor and the pagination, with
-- pkg/hashutils and pkg/sqlutils.
-- Nats: pkg/natsinfo: the subject of an article, the url of the server, and what is created or updated.
-- Publish: the loop of worker/main.go that publishes the articles of a feed.
-- BatchExec: pkg/executils/batch_exec.go as a step relation over the interleavings of its goroutines.
-- Examples: tests, and each property at a concrete input.
--
-- Not modelled: opening the NATS connection and the literals of its settings; the flags of worker/main.go
-- and the dependency injection of both programs; the routes and the writing of JSON replies;
-- backend/internal/storage but for its parameters, since it is generated SQL; logging, network
-- connections, tickers and the database, which the program only calls.
mod Prelude
pub mod Token
pub mod Ast
pub mod Selector
pub mod Parse
pub mod Tokenizer
pub mod Document
pub mod Watch
pub mod Fields
pub mod Extract
pub mod Pagination
pub mod Dates
pub mod Errors
pub mod Accessor
pub mod Counts
pub mod Handlers
pub mod Listing
pub mod Nats
pub mod BatchExec
pub mod Publish
pub mod Article
pub mod Storage
pub mod Service
pub mod Consumer
mod Examples

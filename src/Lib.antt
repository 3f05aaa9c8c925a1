-- ===== src/Lib.antt =====
-- Verification of the MySQL data layer: a service that reads the rows of MySQL tables as entities and
-- writes entities to them, for the datasets that its configuration names.
--
-- Parts of the program, and where they are modelled:
--   * internal/layer/write.go is Layer/Write. `Sql` has the texts of the statements (`sqlVal`, the
--     statement of `insert`, the transactions of `flush`); `Writer` has the state `MysqlWriter`, the
--     constructors `newMysqlWriter` and `Incremental`, and the steps of `Write` on the batch; `Flush`
--     has `flush`, `Write` and `Close`. The transaction is the list of calls made on it, the last
--     first, and the driver answers a call from the calls so far. The other modules hold proofs.
--   * internal/layer/read.go is Layer/Read. `Query` has `buildQuery`; `Iterator` has `newIterator`,
--     `Changes`, `Entities` and the iterator with `Next`, `Token` and `Close`, on a cursor that is the
--     list of the rows it still has.
--   * internal/layer/mysql.go is Layer/Mysql (the row item) and `new_mysql_db` of Layer/Config.
--   * internal/layer/config.go and internal/layer/layer.go are Layer/Config, `UpdateConfiguration` and
--     `NewMysqlDataLayer` Layer/Config/Update, and the source options Layer/Key.
--   * internal/legacy/conf: configuration.go is Legacy/Conf, the older layer's configuration; config.go
--     and environment.go are Legacy/Environment; manager.go is Legacy/Manager, whose `load` takes what is
--     outside in one load as a `World`, so that `loads` of a list of worlds is a run of the manager.
--   * internal/legacy/security is Legacy/Security: the token that the manager sends with its requests,
--     with its cache and the list of the requests to Auth0.
--   * internal/legacy/db/query.go is Legacy/Query.
--   * internal/legacy/layers/layer.go is Legacy/Datasets (the datasets by name, the row buffer),
--     Legacy/Rows (the conversion of a cell), with the loop of `toEntity` in Legacy/Rows/Build, and
--     Legacy/Changes: the connection, which is reset when the digest of the manager's configuration has
--     changed, and `ChangeSet`, which calls back with the entities of a query's rows.
--   * internal/legacy/layers/postlayer.go and entity.go are Legacy/Post: the statements, the arguments
--     and the transaction, and in Legacy/Post/Store the connection and `PostEntities` as a whole.
--   * internal/legacy/web/posthandler.go is Legacy/Web/Batches, with `PostEntities` as a parameter that
--     `handle_post` fills, and datasethandler.go is Legacy/Web/Datasets, on `change_set`. The handlers
--     of both files behind their routes are Legacy/Web/Service.
--   * internal/legacy/web/middlewares: auth0.go is Legacy/Web/Auth, authorization.go Legacy/Web/Access;
--     recover.go, loggerfilter.go and, above them, internal/legacy/web/middleware.go are
--     Legacy/Web/Server, which puts the middlewares around a route. Legacy/Web/Http has the request, the
--     handlers and the errors of the framework: a handler changes a state, and a middleware is a function
--     on handlers.
--   * internal/layer/error.go is Layer/Error, with the results of calls: a value, an error or a panic.
-- Layer/Definition and Layer/Any hold the configuration of a dataset and the values of type `any`.
-- Std has what is used of the standard library: base64, formats with strings, times with their
-- layouts and RFC 3339, and floating-point numbers as a mantissa with a decimal scale. Prelude has
-- strings as lists of bytes, maps as association lists, and integers.
--
-- Parameters stand for the common-datalayer library, the entity parser, the MySQL driver, JSON and MD5,
-- the jwt library with its cache of keys, go-intersect, the files and servers that are read, and the
-- order in which Go walks a map. Every loop is a recursion on a list; the digits of a number are computed on
-- fuel that is one more than the number, and a round divides it by ten.
--
-- Not modelled: logging and metrics, contexts and cancellation, integers beyond 64 bits, the registering
-- of jobs and handlers with their frameworks, and a load of the configuration during a request, which
-- reads it without a lock.
pub mod Prelude
pub mod Std
pub mod Layer
pub mod Legacy
